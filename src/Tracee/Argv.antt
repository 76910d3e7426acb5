-- ===== src/Tracee/Argv.antt =====
-- ft_strace.c, `print_argv`: a vector of fewer than 128 pointers that ends in a null pointer is
-- printed whole, between brackets.
use native.Mathlib.Nat.{pow-suc}
use make_strace.Common.{
  ℕ, zero, suc, ◌+◌, ◌*◌, ◌/◌, ◌%◌, ◌^◌, ◌<◌, ◌≡◌, refl, ap, sym, ◌∙◌, Bool, some, List, [], ◌∷◌,
  ◌++◌, append_assoc, Bytes, codes, length, ◌==◌, if◌then◌else◌, arith,
}
use make_strace.Tracee.{VmReadv, little_endian, read_element, print_string, argv_loop, print_argv}

-- The `width` bytes of a word, the lowest first.
abbrev pub word_bytes : ℕ → ℕ → Bytes
word_bytes zero v = []
word_bytes (suc width) v = v % 256 ∷ word_bytes width (v / 256)

pub length-word_bytes : (width v : ℕ) → length (word_bytes width v) ≡ width
length-word_bytes zero v = refl
length-word_bytes (suc width) v = ap suc (length-word_bytes width (v / 256))

pow_pos : (width : ℕ) → 0 < 256 ^ width
pow_pos zero = omega arith
pow_pos (suc width) = omega (arith, pow-suc 256 width, pow_pos width)

quarter_fits : (width v : ℕ) → v < 256 ^ suc width → v / 256 < 256 ^ width
quarter_fits width v h = omega (arith, pow-suc 256 width)

pub little_endian-word_bytes :
    (width v : ℕ) → v < 256 ^ width → little_endian (word_bytes width v) ≡ v
unfolding little_endian
little_endian-word_bytes zero v h = omega arith
little_endian-word_bytes (suc width) v h =
    omega (arith, little_endian-word_bytes width (v / 256) (quarter_fits width v h))

-- Items with `, ` between them.
abbrev pub separated : List Bytes → Bytes
separated [] = []
separated (s ∷ items) = codes ", " ++ (s ++ separated items)

abbrev pub comma_join : List Bytes → Bytes
comma_join [] = []
comma_join (s ∷ items) = s ++ separated items

-- From index `i` on, the vector at `address` holds `pointers` and then a null pointer.
abbrev pub PointersAt : VmReadv → ℕ → ℕ → ℕ → ℕ → List ℕ → Type 0
PointersAt vm pid address width i [] =
    vm pid ((address + i * width) % 2 ^ 64) width ≡ some (word_bytes width 0)
PointersAt vm pid address width i (p ∷ pointers) =
    (vm pid ((address + i * width) % 2 ^ 64) width ≡ some (word_bytes width p))
    × (0 < p)
    × (p < 256 ^ width)
    × PointersAt vm pid address width (suc i) pointers

unfoldable pub print_strings : VmReadv → ℕ → List ℕ → List Bytes
print_strings vm pid [] = []
print_strings vm pid (p ∷ pointers) = print_string vm pid p ∷ print_strings vm pid pointers

module _ (vm : VmReadv) (pid address width : ℕ) where
  pub read_element_lem :
      (i p : ℕ)
      → vm pid ((address + i * width) % 2 ^ 64) width ≡ some (word_bytes width p)
      → p < 256 ^ width
      → read_element vm pid address width i ≡ some p
  unfolding read_element
  read_element_lem i p e h =
      ground (arith, length-word_bytes width p, little_endian-word_bytes width p h)

  argv_loop-end :
      (i rounds : ℕ)
      → read_element vm pid address width i ≡ some 0
      → argv_loop vm pid address width i (suc rounds) ≡ (if i == 0 then codes "[]" else codes "]")
  unfolding argv_loop
  argv_loop-end i rounds e = ground arith

  pub argv_loop-element :
      (i rounds p : ℕ)
      → read_element vm pid address width i ≡ some p
      → 0 < p
      → argv_loop vm pid address width i (suc rounds)
        ≡ (if i == 0 then codes "[" else codes ", ")
          ++ (print_string vm pid p ++ argv_loop vm pid address width (suc i) rounds)
  unfolding argv_loop
  argv_loop-element i rounds p e h = ground arith

  argv_tail :
      (i rounds : ℕ) (pointers : List ℕ)
      → 0 < i
      → length pointers < rounds
      → PointersAt vm pid address width i pointers
      → argv_loop vm pid address width i rounds
        ≡ separated (print_strings vm pid pointers) ++ codes "]"
  unfolding print_strings
  argv_tail i zero pointers q l h = absurd (omega arith)
  argv_tail i (suc rounds) [] q l h =
      argv_loop-end i rounds (read_element_lem i 0 h (pow_pos width)) ∙ ground arith
  argv_tail i (suc rounds) (p ∷ pointers) q l (e, pos, fits, h) =
      argv_loop-element i rounds p (read_element_lem i p e fits) pos
      ∙ ground (
        arith,
        argv_tail (suc i) rounds pointers (omega arith) (omega arith) h,
        append_assoc (print_string vm pid p) (separated (print_strings vm pid pointers))
            (codes "]"),
      )

  argv_whole :
      (rounds : ℕ) (pointers : List ℕ)
      → length pointers < rounds
      → PointersAt vm pid address width 0 pointers
      → argv_loop vm pid address width 0 rounds
        ≡ codes "[" ++ (comma_join (print_strings vm pid pointers) ++ codes "]")
  unfolding print_strings
  argv_whole zero pointers l h = absurd (omega arith)
  argv_whole (suc rounds) [] l h = argv_loop-end 0 rounds (read_element_lem 0 0 h (pow_pos width))
  argv_whole (suc rounds) (p ∷ pointers) l (e, pos, fits, h) =
      argv_loop-element 0 rounds p (read_element_lem 0 p e fits) pos
      ∙ ap (λ s. codes "[" ++ (print_string vm pid p ++ s))
          (argv_tail 1 rounds pointers (omega arith) (omega arith) h)
      ∙ ap (λ s. codes "[" ++ s)
          (sym (
            append_assoc (print_string vm pid p) (separated (print_strings vm pid pointers))
              (codes "]")))

-- `print_argv` prints a vector of fewer than 128 pointers, ended by a null pointer, as the strings
-- that they point to, between brackets and with `, ` between them, at either pointer width.
pub print_argv-comma_join :
    (vm : VmReadv) (pid address : ℕ) (compat : Bool) (pointers : List ℕ)
    → length pointers < 128
    → PointersAt vm pid address (if compat then 4 else 8) 0 pointers
    → print_argv vm pid address compat
      ≡ codes "[" ++ (comma_join (print_strings vm pid pointers) ++ codes "]")
unfolding print_argv
print_argv-comma_join vm pid address compat pointers l h =
    argv_whole vm pid address (if compat then 4 else 8) 128 pointers l h
