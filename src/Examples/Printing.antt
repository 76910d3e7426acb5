-- ===== src/Examples/Printing.antt =====
-- Tests of `print_quoted`, `print_bytes`, `print_string` and `print_argv`, and their theorems at
-- concrete inputs.
use make_strace.Common.{
  false, none, some, [], ◌∷◌, ◌++◌, codes, ◌==◌, if◌then◌else◌, ◌≡◌, refl, arith,
}
use make_strace.Format.{print_base, format_u, format_hex}
use make_strace.Tracee.{VmReadv, print_quoted, print_bytes, print_string, print_argv}
use make_strace.Tracee.Quoted.{unquote_text, unquote_text-print_quoted}
use make_strace.Tracee.Dumps.{
  served, dump, print_bytes-dump, print_string-terminated, print_string-truncated,
}
use make_strace.Tracee.Argv.{word_bytes, comma_join, print_strings, print_argv-comma_join}
use make_strace.Tracee.Cut.{cut_text, print_argv-cut_text}
use make_strace.Examples.Inputs.{mapped}

-- `"a\"\\\10"`.
quoted_test :
    print_quoted (b'a' ∷ b'"' ∷ b'\\' ∷ 10 ∷ [])
    ≡ b'"' ∷ b'a' ∷ b'\\' ∷ b'"' ∷ b'\\' ∷ b'\\' ∷ b'\\' ∷ b'1' ∷ b'0' ∷ b'"' ∷ []
unfolding print_quoted format_u print_base
quoted_test = refl

unquote_text-print_quoted_example :
    unquote_text (print_quoted (b'a' ∷ b'"' ∷ 10 ∷ b'b' ∷ [])) ≡ some (b'a' ∷ b'"' ∷ 10 ∷ b'b' ∷ [])
unfolding print_quoted
unquote_text-print_quoted_example =
    unquote_text-print_quoted (b'a' ∷ b'"' ∷ 10 ∷ b'b' ∷ []) (omega arith)
      (refl, (refl, (refl, tt)))

print_bytes-dump_example :
    print_bytes (mapped (codes "READ")) 7 0x1000 6 ≡ dump 0x1000 (codes "READ") 6
print_bytes-dump_example =
    print_bytes-dump (mapped (codes "READ")) 7 0x1000 (codes "READ") 6 (λ n. refl)

-- Two bytes more than are readable.
dump_test :
    print_bytes (mapped (codes "READ")) 7 0x1000 6 ≡ print_quoted (codes "READ") ++ codes "..."
unfolding print_bytes
dump_test = refl

address_test : print_bytes (mapped (codes "READ")) 7 0x2000 6 ≡ codes "0x2000"
unfolding print_bytes format_hex print_base
address_test = refl

print_string-terminated_example :
    print_string (mapped (codes "/bin" ++ 0 ∷ codes "x")) 7 0x1000 ≡ print_quoted (codes "/bin")
print_string-terminated_example =
    print_string-terminated (mapped (codes "/bin" ++ 0 ∷ codes "x")) 7 0x1000 (codes "/bin")
      (codes "x") (λ n. refl) (omega arith) (omega arith)

print_string-truncated_example :
    print_string (mapped (codes "/bin")) 7 0x1000 ≡ print_quoted (codes "/bin") ++ codes "..."
print_string-truncated_example =
    print_string-truncated (mapped (codes "/bin")) 7 0x1000 (codes "/bin") (λ n. refl) (omega arith)
      (omega arith)

-- A vector of two pointers at 0x1000, to two strings.
abbrev vector : VmReadv
vector pid address n =
    if address == 0x1000
    then some (word_bytes 8 0x2000)
    else if address == 0x1008
    then some (word_bytes 8 0x3000)
    else if address == 0x1010
    then some (word_bytes 8 0)
    else if address == 0x2000
    then served (codes "ls" ++ 0 ∷ []) n
    else served (codes "-l" ++ 0 ∷ []) n

print_argv-comma_join_example :
    print_argv vector 7 0x1000 false
    ≡ codes "[" ++ (comma_join (print_strings vector 7 (0x2000 ∷ 0x3000 ∷ [])) ++ codes "]")
print_argv-comma_join_example =
    print_argv-comma_join vector 7 0x1000 false (0x2000 ∷ 0x3000 ∷ []) (omega arith)
      (refl, omega arith, omega arith, (refl, omega arith, omega arith, refl))

-- The same vector, of which the end is not readable.
abbrev cut_vector : VmReadv
cut_vector pid address n = if address == 0x1010 then none else vector pid address n

print_argv-cut_text_example :
    print_argv cut_vector 7 0x1000 false
    ≡ cut_text 0x1000 (print_strings cut_vector 7 (0x2000 ∷ 0x3000 ∷ []))
print_argv-cut_text_example =
    print_argv-cut_text cut_vector 7 0x1000 false (0x2000 ∷ 0x3000 ∷ [])
      (refl, omega arith, omega arith, (refl, omega arith, omega arith, tt))
