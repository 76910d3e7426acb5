-- ===== src/Tracee/Cut.antt =====
-- ft_strace.c, `print_argv`: a vector that cannot be read to its end.
use make_strace.Common.{
  ℕ, zero, suc, ◌+◌, ◌*◌, ◌%◌, ◌^◌, ◌<◌, ◌≡◌, refl, sym, ap, ◌∙◌, Bool, Option, none, some, List,
  [], ◌∷◌, ◌++◌, append_assoc, Bytes, codes, length, ◌==◌, if◌then◌else◌, arith,
}
use make_strace.Format.{format_hex}
use make_strace.Tracee.{VmReadv, little_endian, read_element, print_string, argv_loop, print_argv}
use make_strace.Tracee.Argv.{
  word_bytes, separated, comma_join, print_strings, read_element_lem, argv_loop-element,
}

-- A read of `width` bytes that fails, or that transfers too few.
abbrev pub IsShort : ℕ → Option Bytes → Type 0
IsShort width none = Unit
IsShort width (some bytes) = length bytes < width

-- From index `i` on, with `rounds` elements to go, the vector at `address` holds `pointers`, and then
-- an element that is not readable unless no more are to be read.
abbrev pub CutAt : VmReadv → ℕ → ℕ → ℕ → ℕ → ℕ → List ℕ → Type 0
CutAt vm pid address width i zero pointers = pointers ≡ []
CutAt vm pid address width i (suc rounds) [] =
    IsShort width (vm pid ((address + i * width) % 2 ^ 64) width)
CutAt vm pid address width i (suc rounds) (p ∷ pointers) =
    (vm pid ((address + i * width) % 2 ^ 64) width ≡ some (word_bytes width p))
    × (0 < p)
    × (p < 256 ^ width)
    × CutAt vm pid address width (suc i) rounds pointers

-- The address of a vector of which nothing can be read, or else what can be read of it.
abbrev pub cut_text : ℕ → List Bytes → Bytes
cut_text address [] = format_hex address
cut_text address (text ∷ texts) = codes "[" ++ (comma_join (text ∷ texts) ++ codes ", ...]")

module _ (vm : VmReadv) (pid address width : ℕ) where
  read_element-none :
      (i : ℕ)
      → IsShort width (vm pid ((address + i * width) % 2 ^ 64) width)
      → read_element vm pid address width i ≡ none
  unfolding read_element
  read_element-none i h = short (vm pid ((address + i * width) % 2 ^ 64) width) h
    where
      short :
          (answer : Option Bytes)
          → IsShort width answer
          → (elim answer [
            | none ↦ none
            | some bytes ↦ if length bytes == width then some (little_endian bytes) else none
          ])
            ≡ none
      short none h = refl
      short (some bytes) h = ground arith

  argv_loop-none :
      (i rounds : ℕ)
      → read_element vm pid address width i ≡ none
      → argv_loop vm pid address width i (suc rounds)
        ≡ (if i == 0 then format_hex address else codes ", ...]")
  unfolding argv_loop
  argv_loop-none i rounds e = ground arith

  argv_tail-cut :
      (i rounds : ℕ) (pointers : List ℕ)
      → 0 < i
      → CutAt vm pid address width i rounds pointers
      → argv_loop vm pid address width i rounds
        ≡ separated (print_strings vm pid pointers) ++ codes ", ...]"
  unfolding print_strings argv_loop
  argv_tail-cut i zero pointers q h =
      ap (λ rest. separated (print_strings vm pid rest) ++ codes ", ...]") (sym h)
  argv_tail-cut i (suc rounds) [] q h =
      argv_loop-none i rounds (read_element-none i h) ∙ ground arith
  argv_tail-cut i (suc rounds) (p ∷ pointers) q (e, pos, fits, h) =
      argv_loop-element vm pid address width i rounds p
        (read_element_lem vm pid address width i p e fits) pos
      ∙ ground (
        arith,
        argv_tail-cut (suc i) rounds pointers (omega arith) h,
        append_assoc (print_string vm pid p) (separated (print_strings vm pid pointers))
            (codes ", ...]"),
      )

  argv_cut :
      (rounds : ℕ) (pointers : List ℕ)
      → CutAt vm pid address width 0 (suc rounds) pointers
      → argv_loop vm pid address width 0 (suc rounds)
        ≡ cut_text address (print_strings vm pid pointers)
  unfolding print_strings
  argv_cut rounds [] h = argv_loop-none 0 rounds (read_element-none 0 h)
  argv_cut rounds (p ∷ pointers) (e, pos, fits, h) =
      argv_loop-element vm pid address width 0 rounds p
        (read_element_lem vm pid address width 0 p e fits) pos
      ∙ ap (λ s. codes "[" ++ (print_string vm pid p ++ s))
          (argv_tail-cut 1 rounds pointers (omega arith) h)
      ∙ ap (λ s. codes "[" ++ s)
          (sym (
            append_assoc (print_string vm pid p) (separated (print_strings vm pid pointers))
              (codes ", ...]")))

-- Of a vector that is not read to a null pointer, because an element is not readable or the first 128
-- are pointers, `print_argv` prints the strings of the pointers before that, between brackets, with
-- `, ` between them and dots behind them; and the address alone if the first is not readable.
pub print_argv-cut_text :
    (vm : VmReadv) (pid address : ℕ) (compat : Bool) (pointers : List ℕ)
    → CutAt vm pid address (if compat then 4 else 8) 0 128 pointers
    → print_argv vm pid address compat ≡ cut_text address (print_strings vm pid pointers)
unfolding print_argv
print_argv-cut_text vm pid address compat pointers h =
    argv_cut vm pid address (if compat then 4 else 8) 127 pointers h
