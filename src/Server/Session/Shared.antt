-- ===== src/Server/Session/Shared.antt =====
-- The actions that the handlers share keep to the locks.
use student_management_syste.Prelude.{ℕ, Bool, true, List, Bytes}
use student_management_syste.Server.Session.{
  as_reader, as_writer, Act, Done, print_log, if_directory, read_text,
}
use student_management_syste.Server.Session.Tidy.{Tidy, tidy_rules}

pub print_log-Tidy : {t : Bool} (command : Bytes) → Tidy t true as_writer Done (print_log command)
unfolding print_log
print_log-Tidy command = search tidy_rules

module _ {t w : Bool} where
  pub read_text_reader : (path : List Bytes) → Tidy t w as_reader Bytes (read_text path)
  unfolding read_text
  read_text_reader path = search tidy_rules depth 20

  pub read_text_writer : (path : List Bytes) → Tidy t w as_writer Bytes (read_text path)
  unfolding read_text
  read_text_writer path = search tidy_rules depth 20

  module _ (user : ℕ) (path : List Bytes) (missing : Bytes) (found : Act Bytes) where
    pub if_directory_reader :
        Tidy t w as_reader Bytes found
        → Tidy t w as_reader Bytes (if_directory user path missing found)
    unfolding if_directory
    if_directory_reader g = search (tidy_rules, g) depth 20

    pub if_directory_writer :
        Tidy t w as_writer Bytes found
        → Tidy t w as_writer Bytes (if_directory user path missing found)
    unfolding if_directory
    if_directory_writer g = search (tidy_rules, g) depth 20

pub ruleset shared_rules = (
  tidy_rules, print_log-Tidy, read_text_reader, read_text_writer, if_directory_reader,
  if_directory_writer,
)
