-- ===== src/Tests/Journals.antt =====
-- The logger and its configuration on concrete inputs.
use hoststack.Prelude.{
  ◌≡◌, refl, true, false, none, some, [], ◌∷◌, ◌++◌, List, ℤ, pos, negsuc, arith, if◌then◌else◌,
  ltb, length, All,
}
use hoststack.Prelude.Text.{Text, codes, text_eq}
use hoststack.Outcome.{ok}
use hoststack.Strings.Trim.{blanks}
use hoststack.Strings.Trim.Ends.{Clean}
use hoststack.Libc.{strchr, span, after_span, word, after_word, strtok, NoneIn, Begins}
use hoststack.Strings.Trim.{trim, ltrim, rtrim, ltrim_bytes, rtrim_loop}
use hoststack.Config.{properties_config, get, get_int, stoi, or_empty, Properties, equals}
use hoststack.Config.Rows.{Entry, IsEntry}
use hoststack.Config.Values.{
  Row, entry, comment, blank, IsRow, render, first_value, get-properties_config,
}
use hoststack.Logs.{
  Logger, Journal, Clock, Logged, logged, aborted, info, error, get_logger, maxbuf, logger_line,
  log_at,
}
use hoststack.Logs.Lines.{limit, whole, logger_line-whole}
use hoststack.Logs.Sinks.{Message, Records, log_each, all_recorded, log_each-Records}

abbrev noon : Clock
noon = record { stamp = codes "2024-01-05 12:00:00"; micros = codes "7" }

abbrev no_errors : ℤ → Text
no_errors n = codes "No such file"

abbrev empty : Journal
empty = record { file = λ p. []; stdout = [] }

-- A logger at WARN with a file and the console.
abbrev both : Logger
both = record {
  config = record { log_file = codes "run.log"; level = pos 3; console = true };
  stream = some (codes "run.log");
}

abbrev messages : List Message
messages =
    record { level = info; err = pos 0; body = codes "ready" }
    ∷ record { level = error; err = pos 2; body = codes "mount" }
    ∷ []

abbrev console_of : Logged → Text
console_of (logged j) = j.stdout
console_of (aborted j) = j.stdout
console_of Logged.undefined = []

log_each_console :
    console_of (log_each no_errors noon both messages empty)
    ≡ codes "2024-01-05 12:00:00,7 [ERROR] mount: No such file" ++ 13 ∷ 10 ∷ []
unfolding log_at
log_each_console = refl

get_logger_level :
    get_logger (λ p. false)
    ≡ some
        (record { config = record { log_file = []; level = pos 3; console = true }; stream = none })
unfolding get_logger
get_logger_level = refl

log_each-Records_example :
    Records both
      (all_recorded no_errors noon both messages)
      empty
      (log_each no_errors noon both messages empty)
log_each-Records_example =
    log_each-Records no_errors noon both messages empty (omega arith) (omega arith)

logger_line-whole_example : logger_line noon.stamp (codes " ") (codes "ready") none ≡ (
    if ltb (length (whole noon.stamp (codes " ") (codes "ready") none)) limit
    then some (record {
      size = maxbuf;
      bytes = whole noon.stamp (codes " ") (codes "ready") none ++ 13 ∷ 10 ∷ [];
    })
    else none)
logger_line-whole_example =
    logger_line-whole noon.stamp (codes " ") (codes "ready") none (omega arith)

abbrev level_entry : Entry
level_entry = record {
  before_key = codes " ";
  key = codes "log_level";
  after_key = codes " ";
  before_value = codes " ";
  value = codes "3";
  after_value = [];
}

abbrev rows : List Row
rows = comment [] (codes " the log") ∷ blank [] ∷ entry level_entry ∷ []

abbrev loaded : Properties
loaded = (codes "log_level", codes "3") ∷ []

properties_config_three : properties_config (render rows) ≡ ok loaded
unfolding properties_config trim ltrim rtrim ltrim_bytes rtrim_loop span strchr strtok after_span
    word after_word text_eq
properties_config_three = refl

get_int_level : get_int loaded (codes "log_level") ≡ some (pos 3)
unfolding get_int text_eq after_span strchr
get_int_level = refl

stoi_minus : stoi (codes " -12ab") ≡ some (negsuc 11)
unfolding stoi after_span strchr
stoi_minus = refl

-- The smallest `int`, and the number below it.
stoi_smallest : stoi (codes "-2147483648") ≡ some (negsuc 2147483647)
unfolding stoi after_span strchr
stoi_smallest = refl

stoi_too_small : stoi (codes "-2147483649") ≡ none
unfolding stoi after_span strchr
stoi_too_small = refl

level_entry-IsEntry : IsEntry level_entry
unfolding strchr
level_entry-IsEntry = record {
  key_clean = record { some_byte = λ e. cc; begins = refl; ends = refl };
  value_clean = record { some_byte = λ e. cc; begins = refl; ends = refl };
  key_equals = (refl, (refl, (refl, (refl, (refl, (refl, (refl, (refl, (refl, tt)))))))));
  value_equals = (refl, tt);
  no_comment = refl;
  before_key_blank = (refl, tt);
  after_key_blank = (refl, tt);
  before_value_blank = (refl, tt);
  after_value_blank = tt;
}

rows-IsRow : All IsRow rows
rows-IsRow = (
  (tt, ((refl, (refl, (refl, (refl, (refl, (refl, (refl, (refl, (refl, tt))))))))), omega arith)),
  (
    (tt, (tt, omega arith)),
    (
      (
        level_entry-IsEntry,
        (
          (
            refl,
            (
              refl,
              (
                refl,
                (
                  refl,
                  (
                    refl,
                    (refl, (refl, (refl, (refl, (refl, (refl, (refl, (refl, (refl, tt))))))))),
                  ),
                ),
              ),
            ),
          ),
          omega arith,
        ),
      ),
      tt,
    ),
  ),
)

get-properties_config_example :
    (m : Properties) × (properties_config (render rows) ≡ ok m)
    × ((name : Text) → get m name ≡ or_empty (first_value name rows))
get-properties_config_example = get-properties_config rows rows-IsRow

abbrev bare : Text
bare = codes "console"

bare-Clean : Clean blanks bare
unfolding strchr
bare-Clean = record { some_byte = λ e. cc; begins = refl; ends = refl }

bare-NoneIn : NoneIn equals bare
unfolding strchr
bare-NoneIn = (refl, (refl, (refl, (refl, (refl, (refl, (refl, tt)))))))

bare-Begins : Begins (b'#' ∷ []) bare
unfolding strchr
bare-Begins = refl
