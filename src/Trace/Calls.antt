-- ===== src/Trace/Calls.antt =====
-- ft_strace.c, `trace`: the calls that a child makes, as the rounds of the loop in which they are seen,
-- and the text that each part of a call is to be printed as.
use make_strace.Common.{ℕ, ◌≡◌, Bool, true, List, [], ◌∷◌, ◌++◌, Bytes, All}
use make_strace.Registers.{SyscallArgs}
use make_strace.Syscall.{print_entry, finish_args}
use make_strace.Trace.{Libc, Round, result_of, print_result}
use make_strace.Trace.Stops.{at_call, stop_of}
use make_strace.Trace.Output.{mode_text, is_quiet, quiet_text}

-- The rounds of one call: those before it, its entry and those within it.
pub record Entered : Type 0 where
  pub before : List Round
  pub enter : Round
  pub entry : SyscallArgs
  pub within : List Round

-- A call that returns.
pub record Call : Type 0 where
  pub entered : Entered
  pub leave : Round
  pub exit : SyscallArgs

abbrev pub IsQuiet : ℕ → Round → Type 0
IsQuiet child r = is_quiet (stop_of child r) ≡ true

-- The stops are of the kinds that the names say.
abbrev pub IsEntered : ℕ → Entered → Type 0
IsEntered child c =
    All (IsQuiet child) c.before
    × (stop_of child c.enter ≡ at_call c.entry)
    × All (IsQuiet child) c.within

abbrev pub IsCall : ℕ → Call → Type 0
IsCall child c = IsEntered child c.entered × (stop_of child c.leave ≡ at_call c.exit)

abbrev pub entered_rounds : Entered → List Round → List Round
entered_rounds c rest = c.before ++ (c.enter ∷ (c.within ++ rest))

abbrev pub calls_rounds : List Call → List Round → List Round
calls_rounds [] rest = rest
calls_rounds (c ∷ calls) rest = entered_rounds c.entered (c.leave ∷ calls_rounds calls rest)

abbrev pub mode_after : Bool → List Call → Bool
mode_after compat [] = compat
mode_after compat (c ∷ calls) = mode_after c.exit.compat calls

module _ (libc : Libc) (pid child : ℕ) where
  abbrev pub quiet_texts : List Round → Bytes
  quiet_texts [] = []
  quiet_texts (r ∷ rounds) = quiet_text libc pid child (stop_of child r) ++ quiet_texts rounds

  -- What is printed up to the end of the stops within a call, which begins in the mode `compat`.
  abbrev pub entered_text : Bool → Entered → Bytes
  entered_text compat c =
      quiet_texts c.before
      ++ ((mode_text child compat c.entry.compat ++ (print_entry c.enter.vm pid c.entry).0)
          ++ quiet_texts c.within)

  -- The rest of the line of a call, and the mode that the child is in behind it.
  abbrev pub exit_text : Call → Bytes
  exit_text c =
      finish_args c.leave.vm pid (print_entry c.entered.enter.vm pid c.entered.entry).1
        (result_of c.exit)
      ++ (print_result libc c.exit ++ mode_text child c.entered.entry.compat c.exit.compat)

  abbrev pub calls_text : Bool → List Call → Bytes → Bytes
  calls_text compat [] rest = rest
  calls_text compat (c ∷ calls) rest =
      entered_text compat c.entered ++ (exit_text c ++ calls_text c.exit.compat calls rest)
