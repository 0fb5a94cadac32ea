-- ===== src/Log.antt =====
-- src/util.c: the log on stderr, and the ways out of the programs.
--
-- What was printed so far is a list: time stamps, and messages as the texts that `printf` makes of
-- a format and its arguments. `clock_gettime` is an argument, `none` for its failure, and so is the
-- text of `errno`.
use lossless_transport.Common.{
  ℕ, Option, none, some, List, [], ◌∷◌, ◌++◌, Outcome, returns, exits, aborts, Text, codes,
}
use lossless_transport.Clock.{Timespec}

pub data Output : Type 0 where
  stamp : Timespec → Output
  message : Text → Output

-- A run so far, the exit with a code, or `abort ()`, with what was printed.
pub data Run (A : Type 0) : Type 0 where
  runs : A → List Output → Run A
  exited : ℕ → List Output → Run A
  aborted : List Output → Run A

abbrev pub Printer : Type 0 → Type 0
Printer A = List Output → Run A

abbrev pub pure : {A : Type 0} → A → Printer A
pure a log = runs a log

infixl 5 ◌>>=◌ ◌>>◌
abbrev pub ◌>>=◌ : {A B : Type 0} → Printer A → (A → Printer B) → Printer B
◌>>=◌ m f log = elim (m log) [
  | runs a log' ↦ f a log'
  | exited code log' ↦ exited code log'
  | aborted log' ↦ aborted log'
]

abbrev pub ◌>>◌ : {B : Type 0} → Printer (Unit {0}) → Printer B → Printer B
m >> k = m >>= λ _. k

-- `fprintf (stderr, …)`
abbrev pub print : Text → Printer (Unit {0})
print text log = runs tt (log ++ message text ∷ [])

unfoldable pub print_time : Option Timespec → Printer (Unit {0})
print_time none log = aborted log
print_time (some tp) log = runs tt (log ++ stamp tp ∷ [])

unfoldable pub log_msg : Option Timespec → Text → Printer (Unit {0})
log_msg clock text = print_time clock >> print text

-- `perror` prints the text of `errno` after the caller's.
unfoldable pub log_perror : Option Timespec → Text → Text → Printer (Unit {0})
log_perror clock s reason = print_time clock >> print (s ++ (codes ": " ++ (reason ++ codes "\n")))

unfoldable pub exit_msg : {A : Type 0} → Option Timespec → Text → Printer A
exit_msg clock text = print_time clock >> print text >> exited 1

unfoldable pub exit_perror : {A : Type 0} → Option Timespec → Text → Text → Printer A
exit_perror clock s reason =
    print_time clock >> print (s ++ (codes ": " ++ (reason ++ codes "\n"))) >> exited 1

abbrev pub usage : Text → Text
usage program = codes "Usage: " ++ (program ++ codes " <hostname> <port> [-f FILE]\n")

unfoldable pub exit_usage : {A : Type 0} → Text → Printer A
exit_usage program = print (usage program) >> exited 2

-- What is left of a run where the log does not matter.
unfoldable pub quiet : {A : Type 0} → Run A → Outcome A
quiet (runs a log) = returns a
quiet (exited code log) = exits
quiet (aborted log) = aborts
