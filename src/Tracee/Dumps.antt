-- ===== src/Tracee/Dumps.antt =====
-- ft_strace.c, `print_bytes` and `print_string`: what they print of a stretch of readable memory.
use Prim.Native.Nat.{min}
use make_strace.Common.{
  ℕ, zero, suc, ◌<◌, ◌≡◌, refl, sym, ◌∙◌, ◌&&◌, Option, none, some, [], ◌∷◌, ◌++◌, append-nil,
  Bytes, codes, length, length-append, take, take_all, leb, ltb, ◌==◌, if◌then◌else◌, arith, All,
}
use make_strace.Format.{format_hex}
use make_strace.Tracee.{VmReadv, print_quoted, print_bytes, print_string, strnlen}

-- A read of `n` bytes where the bytes `contents` are mapped, and nothing behind them: a read that
-- crosses the end is partial, one that begins there fails.
abbrev pub served : Bytes → ℕ → Option Bytes
served contents zero = some []
served [] (suc n) = none
served (c ∷ contents) (suc n) = some (take (suc n) (c ∷ contents))

abbrev pub Serves : VmReadv → ℕ → ℕ → Bytes → Type 0
Serves vm pid address contents = (n : ℕ) → vm pid address n ≡ served contents n

-- What a dump of `count` bytes shows: the address alone where nothing can be read, or else at most
-- 64 bytes, and dots unless all `count` bytes are among them.
abbrev pub dump : ℕ → Bytes → ℕ → Bytes
dump address contents count =
    if ltb 0 count && length contents == 0
    then format_hex address
    else print_quoted (take (min count 64) contents)
      ++ (if leb count 64 && leb count (length contents) then [] else codes "...")

length-take : (n : ℕ) (xs : Bytes) → length (take n xs) ≡ min n (length xs)
length-take zero xs = omega arith
length-take (suc n) [] = omega arith
length-take (suc n) (x ∷ xs) = omega (arith, length-take n xs)

served-some :
    (contents : Bytes) (n : ℕ)
    → 0 < n
    → 0 < length contents
    → served contents n ≡ some (take n contents)
served-some [] n h k = absurd (omega arith)
served-some (c ∷ contents) zero h k = absurd (omega arith)
served-some (c ∷ contents) (suc n) h k = refl

served-none : (n : ℕ) → 0 < n → served [] n ≡ none
served-none zero h = absurd (omega arith)
served-none (suc n) h = refl

wanted-min : (count : ℕ) → (if ltb count 64 then count else 64) ≡ min count 64
wanted-min count = ground arith

-- The three ways that the read of `print_bytes` can go.
module _ (vm : VmReadv) (pid address count : ℕ) where
  print_bytes-zero : count ≡ 0 → print_bytes vm pid address count ≡ print_quoted []
  unfolding print_bytes
  print_bytes-zero e = rw e

  print_bytes-none :
      0 < count
      → vm pid address (min count 64) ≡ none
      → print_bytes vm pid address count ≡ format_hex address
  unfolding print_bytes
  print_bytes-none h e =
      let e' : vm pid address (if ltb count 64 then count else 64) ≡ none =
        rw (wanted-min count) e in
      ground arith

  print_bytes-some :
      (buf : Bytes)
      → 0 < count
      → 0 < length buf
      → vm pid address (min count 64) ≡ some buf
      → print_bytes vm pid address count
        ≡ print_quoted buf ++ (if ltb (length buf) count then codes "..." else [])
  unfolding print_bytes
  print_bytes-some buf h l e =
      let e' : vm pid address (if ltb count 64 then count else 64) ≡ some buf =
        rw (wanted-min count) e in
      ground arith

dump-zero : (address : ℕ) (contents : Bytes) → dump address contents 0 ≡ print_quoted []
dump-zero address contents = ground (arith, append-nil (print_quoted []))

dump-none : (address n : ℕ) → dump address [] (suc n) ≡ format_hex address
dump-none address n = ground arith

dump-some :
    (address n c k : ℕ) (contents : Bytes)
    → k ≡ min (min (suc n) 64) (suc (length contents))
    → dump address (c ∷ contents) (suc n)
      ≡ print_quoted (take (min (suc n) 64) (c ∷ contents))
        ++ (if ltb k (suc n) then codes "..." else [])
dump-some address n c k contents e = ground arith

-- Where `contents` is mapped at the address and nothing behind it, `print_bytes` prints the address
-- alone if some bytes are wanted and none is mapped; or else the first bytes of `contents`, quoted, as
-- many as are wanted but at most 64, and dots unless all that are wanted are among them.
pub print_bytes-dump :
    (vm : VmReadv) (pid address : ℕ) (contents : Bytes) (count : ℕ)
    → Serves vm pid address contents
    → print_bytes vm pid address count ≡ dump address contents count
print_bytes-dump vm pid address [] zero h =
    print_bytes-zero vm pid address 0 refl ∙ sym (dump-zero address [])
print_bytes-dump vm pid address (c ∷ contents) zero h =
    print_bytes-zero vm pid address 0 refl ∙ sym (dump-zero address (c ∷ contents))
print_bytes-dump vm pid address [] (suc n) h =
    print_bytes-none vm pid address (suc n) (omega arith)
      (h (min (suc n) 64) ∙ served-none (min (suc n) 64) (omega arith))
    ∙ sym (dump-none address n)
print_bytes-dump vm pid address (c ∷ contents) (suc n) h =
    let wanted = min (suc n) 64 in
    let buf : Bytes = take wanted (c ∷ contents) in
    let read = length-take wanted (c ∷ contents) in
    print_bytes-some vm pid address (suc n) buf (omega arith) (omega (arith, read))
      (h wanted ∙ served-some (c ∷ contents) wanted (omega arith) (omega arith))
    ∙ sym (dump-some address n c (length buf) contents read)

-- In a read of a C string that is shorter than the buffer, the zero is found.
strnlen-take :
    (n : ℕ) (s rest : Bytes)
    → All (λ c. 0 < c) s
    → length s < n
    → (strnlen (take n (s ++ 0 ∷ rest)) ≡ length s)
      × (take (length s) (take n (s ++ 0 ∷ rest)) ≡ s)
      × (length s < length (take n (s ++ 0 ∷ rest)))
unfolding strnlen
strnlen-take zero s rest z l = absurd (omega arith)
strnlen-take (suc n) [] rest z l = (refl, refl, omega arith)
strnlen-take (suc n) (c ∷ s) rest z l = ground (arith, strnlen-take n s rest z.1)

print_string-some :
    (vm : VmReadv) (pid address : ℕ) (buf : Bytes)
    → vm pid address 4096 ≡ some buf
    → 0 < length buf
    → print_string vm pid address
      ≡ print_quoted (take (strnlen buf) buf)
        ++ (if strnlen buf == length buf then codes "..." else [])
unfolding print_string
print_string-some vm pid address buf e l = ground arith

text-terminated :
    (buf s : Bytes)
    → strnlen buf ≡ length s
    → take (length s) buf ≡ s
    → length s < length buf
    → print_quoted (take (strnlen buf) buf)
        ++ (if strnlen buf == length buf then codes "..." else [])
      ≡ print_quoted s
text-terminated buf s a b c = rw (a, b) (ground (arith, append-nil (print_quoted s)))

text-truncated :
    (buf : Bytes)
    → strnlen buf ≡ length buf
    → take (length buf) buf ≡ buf
    → print_quoted (take (strnlen buf) buf)
        ++ (if strnlen buf == length buf then codes "..." else [])
      ≡ print_quoted buf ++ codes "..."
text-truncated buf a b = rw (a, b) (ground arith)

-- Of a C string of fewer than 4096 bytes, `print_string` prints the bytes before its zero.
pub print_string-terminated :
    (vm : VmReadv) (pid address : ℕ) (s rest : Bytes)
    → Serves vm pid address (s ++ 0 ∷ rest)
    → All (λ c. 0 < c) s
    → length s < 4096
    → print_string vm pid address ≡ print_quoted s
print_string-terminated vm pid address s rest h z l =
    print_string-some vm pid address buf
      (h 4096 ∙ served-some (s ++ 0 ∷ rest) 4096 (omega arith) not_empty) (omega (arith, found))
    ∙ text-terminated buf s found.0 found.1 found.2
  where
    buf : Bytes
    buf = take 4096 (s ++ 0 ∷ rest)

    found : (strnlen buf ≡ length s) × (take (length s) buf ≡ s) × (length s < length buf)
    found = strnlen-take 4096 s rest z l

    not_empty : 0 < length (s ++ 0 ∷ rest)
    not_empty = rw length-append (omega arith)

strnlen-full : (buf : Bytes) → All (λ c. 0 < c) buf → strnlen buf ≡ length buf
unfolding strnlen
strnlen-full [] z = refl
strnlen-full (c ∷ buf) z = ground (arith, strnlen-full buf z.1)

-- Where no zero stands in the first 4096 readable bytes, or none in all that is mapped,
-- `print_string` prints what it has read, and dots.
pub print_string-truncated :
    (vm : VmReadv) (pid address : ℕ) (contents : Bytes)
    → Serves vm pid address contents
    → 0 < length contents
    → All (λ c. 0 < c) (take 4096 contents)
    → print_string vm pid address ≡ print_quoted (take 4096 contents) ++ codes "..."
print_string-truncated vm pid address contents h l z =
    print_string-some vm pid address buf (h 4096 ∙ served-some contents 4096 (omega arith) l)
      (omega (arith, length-take 4096 contents))
    ∙ text-truncated buf (strnlen-full buf z) (take_all (length buf) buf (omega arith))
  where
    buf : Bytes
    buf = take 4096 contents
