-- ===== src/Executor/Quoting.antt =====
-- What a POSIX shell reads from the values that the run script quotes.
use mathlib.Core.Option
use bhc_scheduler.Common.{
  ℕ, ◌+◌, ◌*◌, ◌<◌, ◌≡◌, refl, ap, Bool, true, false, ◌||◌, Option, none, some, [], ◌∷◌, ◌++◌, ◌==◌,
  ltb, length, arith, inl, inr, Bool-cases, if◌then◌else◌,
}
use bhc_scheduler.Common.Text.{CText}
use bhc_scheduler.Executor.Script.{is_special, escape_from, shell_escape}

-- The bytes that the shell takes for themselves after a backslash inside double quotes.
abbrev pub unquotable : ℕ → Bool
unquotable c = c == 92 || c == 34 || c == 36 || c == 96

-- The text between two double quotes as the shell reads it, by the rules of POSIX (2.2.3): none where
-- it would end the quotes, start an expansion, or escape the closing quote.
pub read_quoted : CText → Option CText
read_quoted [] = some []
read_quoted (c ∷ []) = if unquotable c then none else some (c ∷ [])
read_quoted (c ∷ d ∷ rest) =
    let after = read_quoted rest in
    let next = read_quoted (d ∷ rest) in
    if c == 92
    then (if unquotable d
        then Option.map (λ t. d ∷ t) after
        else if d == 10
        then after
        else Option.map (λ t. c ∷ d ∷ t) after)
    else if unquotable c
    then none
    else Option.map (λ t. c ∷ t) next

-- The value that arrives: without its newlines, and with a backslash before each `!`.
pub received : CText → CText
received [] = []
received (c ∷ text) =
    let rest = received text in
    if c == 10 then rest else if c == 33 then 92 ∷ c ∷ rest else c ∷ rest

read_plain :
    (c : ℕ) (t u : CText)
    → unquotable c ≡ false
    → read_quoted t ≡ some u
    → read_quoted (c ∷ t) ≡ some (c ∷ u)
unfolding read_quoted
read_plain c [] u h e = ground arith
read_plain c (d ∷ t) u h e = ground arith

-- What the theorem says of the text from the `j`-th byte on.
abbrev Read : ℕ → ℕ → CText → CText → Type 0
Read n j s out =
    (p : CText) × (q : CText) × (s ≡ p ++ q)
    × (read_quoted out ≡ some (received p))
    × (length out + j < n)
    × (2 * length s + j < n → q ≡ [])

read_escaped :
    (c : ℕ) (t p : CText)
    → is_special c ≡ true
    → read_quoted t ≡ some (received p)
    → read_quoted (92 ∷ c ∷ t) ≡ some (received (c ∷ p))
unfolding is_special read_quoted received
read_escaped c t p h e = ground arith

read_kept :
    (c : ℕ) (t p : CText)
    → is_special c ≡ false
    → (c == 10) ≡ false
    → read_quoted t ≡ some (received p)
    → read_quoted (c ∷ t) ≡ some (received (c ∷ p))
unfolding is_special received
read_kept c t p h k e = ground (arith, read_plain c t (received p))

read_skipped :
    (c : ℕ) (t p : CText)
    → (c == 10) ≡ true
    → read_quoted t ≡ some (received p)
    → read_quoted t ≡ some (received (c ∷ p))
unfolding received
read_skipped c t p k e = ground arith

Read-from : (n j : ℕ) (s : CText) → j < n → Read n j s (escape_from n j s)
unfolding escape_from read_quoted received
Read-from n j [] room = ([], [], refl, refl, omega arith, λ _. refl)
Read-from n j (c ∷ s) room = elim (Bool-cases (ltb (j + 2) n)) [
  | inr full ↦ rw full ([], c ∷ s, refl, refl, omega arith, λ h. absurd (ground arith))
  | inl fits ↦ elim (Bool-cases (is_special c)) [
    | inl special ↦
        let (p, q, e, r, b, f) = Read-from n (j + 2) s (ground arith) in
        rw (fits, special)
          (
            c ∷ p,
            q,
            ap (λ t. c ∷ t) e,
            read_escaped c (escape_from n (j + 2) s) p special r,
            omega arith,
            λ h. f (omega arith),
          )
    | inr plain ↦ elim (Bool-cases (c == 10)) [
      | inl newline ↦
          let (p, q, e, r, b, f) = Read-from n j s room in
          rw (fits, plain, newline)
            (
              c ∷ p,
              q,
              ap (λ t. c ∷ t) e,
              read_skipped c (escape_from n j s) p newline r,
              b,
              λ h. f (omega arith),
            )
      | inr other ↦
          let (p, q, e, r, b, f) = Read-from n (j + 1) s (ground arith) in
          rw (fits, plain, other)
            (
              c ∷ p,
              q,
              ap (λ t. c ∷ t) e,
              read_kept c (escape_from n (j + 1) s) p plain other r,
              omega arith,
              λ h. f (omega arith),
            )
    ]
  ]
]

-- Between double quotes a shell reads what `shell_escape` writes as a literal text: it never ends the
-- quotes or starts an expansion, also where the buffer cuts it. It is what is received of a beginning of
-- the value, and of the whole value if the buffer is more than twice as long; and it fits the buffer.
pub shell_escape-read_quoted :
    (n : ℕ) (s : CText)
    → 0 < n
    → (p : CText) × (q : CText) × (s ≡ p ++ q)
      × (read_quoted (shell_escape n s) ≡ some (received p))
      × (length (shell_escape n s) < n)
      × (2 * length s < n → q ≡ [])
unfolding shell_escape
shell_escape-read_quoted n s room =
    let (p, q, e, r, b, f) = Read-from n 0 s room in (p, q, e, r, omega arith, λ h. f (omega arith))
