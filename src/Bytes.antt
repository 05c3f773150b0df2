-- ===== src/Bytes.antt =====
-- Bytes: what the source uses of Go's byte strings, of `unicode` at one byte (Latin-1) and of `strings`.
use Prim.Native.Char.{code}
use flexitype.Prelude.{
  ℕ, ◌+◌, ◌≡◌, refl, String, Bool, true, false, ◌&&◌, ◌||◌, List, [], ◌∷◌, ◌++◌, arith, leb, ◌==◌,
  if◌then◌else◌,
}

-- A Go string.
abbrev pub Bytes : Type 0
Bytes = List ℕ

-- The bytes of an ASCII literal.
abbrev pub codes : String → Bytes
codes String.[] = []
codes (String.◌∷◌ c s) = code c ∷ codes s

-- `==` on strings.
unfoldable pub eq_bytes : Bytes → Bytes → Bool
eq_bytes [] [] = true
eq_bytes (a ∷ xs) (b ∷ ys) = a == b && eq_bytes xs ys
eq_bytes _ _ = false

pub eq_bytes→eq : (xs ys : Bytes) → eq_bytes xs ys ≡ true → xs ≡ ys
unfolding eq_bytes
eq_bytes→eq [] [] h = refl
eq_bytes→eq [] (b ∷ ys) h = cc
eq_bytes→eq (a ∷ xs) [] h = cc
eq_bytes→eq (a ∷ xs) (b ∷ ys) h = ground (arith, eq_bytes→eq xs ys)

pub eq_bytes_refl : (xs : Bytes) → eq_bytes xs xs ≡ true
unfolding eq_bytes
eq_bytes_refl [] = refl
eq_bytes_refl (a ∷ xs) = ground (arith, eq_bytes_refl xs)

-- unicode.IsSpace(rune(b)) for a byte b.
unfoldable pub is_space : ℕ → Bool
is_space c = leb 9 c && leb c 13 || c == 32 || c == 133 || c == 160

-- unicode.IsDigit(rune(b)) for a byte b.
unfoldable pub is_digit : ℕ → Bool
is_digit c = leb b'0' c && leb c b'9'

-- unicode.IsLetter(rune(b)) for a byte b: the letters of ASCII, then those of Latin-1.
unfoldable pub is_letter : ℕ → Bool
is_letter c =
    leb b'a' c && leb c b'z'
    || leb b'A' c && leb c b'Z'
    || c == 170
    || c == 181
    || c == 186
    || leb 192 c && leb c 214
    || leb 216 c && leb c 246
    || leb 248 c && leb c 255

-- strings.ToLower on the bytes of an identifier. A name that the lexers read is made of Latin-1 letters,
-- so none of its bytes belongs to a rune whose lower case is ASCII.
unfoldable pub lower : ℕ → ℕ
lower c = if leb b'A' c && leb c b'Z' then c + 32 else c

unfoldable pub to_lower : Bytes → Bytes
unfolding lower
to_lower [] = []
to_lower (c ∷ cs) = lower c ∷ to_lower cs

-- strings.EqualFold of an identifier and an ASCII word.
unfoldable pub equal_fold : Bytes → Bytes → Bool
unfolding eq_bytes to_lower
equal_fold s t = eq_bytes (to_lower s) (to_lower t)

-- The longest prefix of bytes with `p`, and the rest: a `for i < len(s) && p(s[i]) { i++ }`.
unfoldable pub span : (ℕ → Bool) → Bytes → Bytes × Bytes
span p [] = ([], [])
span p (c ∷ cs) = let (taken, rest) = span p cs in if p c then (c ∷ taken, rest) else ([], c ∷ cs)

pub span-append : (p : ℕ → Bool) (cs : Bytes) → (span p cs).0 ++ (span p cs).1 ≡ cs
unfolding span
span-append p [] = refl
span-append p (c ∷ cs) = ground (arith, span-append p cs)

-- The white space of Unicode in UTF-8: one, two or three bytes.
space1 : ℕ → Bool
space1 c = leb 9 c && leb c 13 || c == 32

space2 : ℕ → ℕ → Bool
space2 c d = c == 0xc2 && (d == 0x85 || d == 0xa0)

space3 : ℕ → ℕ → ℕ → Bool
space3 c d e =
    c == 0xe1 && d == 0x9a && e == 0x80
    || c == 0xe2 && d == 0x80 && (leb 0x80 e && leb e 0x8a || e == 0xa8 || e == 0xa9 || e == 0xaf)
    || c == 0xe2 && d == 0x81 && e == 0x9f
    || c == 0xe3 && d == 0x80 && e == 0x80

-- strings.TrimSpace(s) == "": every rune is white space.
unfoldable pub is_blank : Bytes → Bool
unfolding space1 space2 space3
is_blank [] = true
is_blank (c ∷ []) = space1 c
is_blank (c ∷ d ∷ []) = space1 c && space1 d || space2 c d
is_blank (c ∷ d ∷ e ∷ rest) =
    let after1 = is_blank (d ∷ e ∷ rest) in
    let after2 = is_blank (e ∷ rest) in
    let after3 = is_blank rest in
    if space1 c
    then after1
    else if space2 c d
    then after2
    else if space3 c d e
    then after3
    else false
