-- ===== src/Webui/Host.antt =====
-- `localOnly` of internal/webui/webui.go, with `net.SplitHostPort`.
use lockping_agent.Prelude.{
  ℕ, Bool, true, false, not, ◌&&◌, ◌||◌, [], ◌∷◌, ◌++◌, Option, none, some, ◌≡◌, ◌⊎◌, ◌↔◌, inl, inr,
  refl, Bytes, codes, bytes_eq, bytes_eq_iff, ◌==◌, if◌then◌else◌, arith, Bool-cases, Option-cases,
}

unfoldable pub contains : ℕ → Bytes → Bool
contains b [] = false
contains b (c ∷ s) = c == b || contains b s

-- The text before the last colon.
unfoldable pub before_last_colon : Bytes → Option Bytes
before_last_colon [] = none
before_last_colon (c ∷ s) = elim (before_last_colon s) [
  | some host ↦ some (c ∷ host)
  | none ↦ if c == b':' then some [] else none
]

-- The text before the first closing bracket, and behind it.
unfoldable pub cut_bracket : Bytes → Option (Bytes × Bytes)
cut_bracket [] = none
cut_bracket (c ∷ s) =
    let rest = cut_bracket s in
    if c == b']'
    then some ([], s)
    else elim rest [ none ↦ none | some (host, behind) ↦ some (c ∷ host, behind) ]

-- Behind the brackets: a colon that is the last one, and no more brackets.
unfoldable pub is_port : Bytes → Bool
unfolding contains
is_port [] = false
is_port (c ∷ s) = c == b':' && not (contains b':' s || contains b'[' s || contains b']' s)

unfoldable pub bracketed : Bytes → Option Bytes
unfolding cut_bracket is_port
bracketed s = elim (cut_bracket s) [
  | none ↦ none
  | some (host, behind) ↦ if is_port behind && not (contains b'[' host) then some host else none
]

-- The host of `net.SplitHostPort(s)`; `none` is its error.
unfoldable pub split_host : Bytes → Option Bytes
unfolding bracketed before_last_colon contains
split_host [] = none
split_host (c ∷ s) = if c == b'[' then bracketed s else elim (before_last_colon (c ∷ s)) [
  | none ↦ none
  | some host ↦
      if contains b':' host || contains b'[' (c ∷ s) || contains b']' (c ∷ s)
      then none
      else some host
]

abbrev pub loopback : Bytes
loopback = codes "127.0.0.1"

abbrev pub localhost : Bytes
localhost = codes "localhost"

abbrev pub host_of : Bytes → Option Bytes → Bytes
host_of s none = s
host_of s (some h) = h

unfoldable pub is_local : Bytes → Bool
is_local s =
    let host = host_of s (split_host s) in bytes_eq host loopback || bytes_eq host localhost

-- No colon and no bracket.
abbrev pub IsPlain : Bytes → Type 0
IsPlain s = (contains b':' s ≡ false) × (contains b'[' s ≡ false) × (contains b']' s ≡ false)

-- The forms of a Host header that names `h`: alone; before a colon and a port; in brackets, before
-- a colon and a port. A port has no colon and no bracket, and may be empty.
abbrev pub Names : Bytes → Bytes → Type 0
Names h s =
    (s ≡ h)
    ⊎ (((port : Bytes) × (s ≡ h ++ b':' ∷ port) × IsPlain port)
        ⊎ ((port : Bytes) × (s ≡ b'[' ∷ h ++ b']' ∷ b':' ∷ port) × IsPlain port))

no_colon : (s : Bytes) → before_last_colon s ≡ none → contains b':' s ≡ false
unfolding before_last_colon contains
no_colon [] h = refl
no_colon (c ∷ s) h = elim (Option-cases (before_last_colon s)) [
  | inl none' ↦ ground (arith, no_colon s none')
  | inr (host, e) ↦ absurd (ground arith)
]

before_last_colon-none : (s : Bytes) → contains b':' s ≡ false → before_last_colon s ≡ none
unfolding before_last_colon contains
before_last_colon-none [] h = refl
before_last_colon-none (c ∷ s) h = ground (arith, before_last_colon-none s (ground arith))

contains-suffix : (b : ℕ) (s t : Bytes) → contains b (s ++ t) ≡ false → contains b t ≡ false
unfolding contains
contains-suffix b [] t h = h
contains-suffix b (c ∷ s) t h = contains-suffix b s t (ground arith)

before_last_colon-prefix :
    (s : Bytes) {host : Bytes}
    → before_last_colon s ≡ some host
    → (rest : Bytes) × (s ≡ host ++ b':' ∷ rest) × (contains b':' rest ≡ false)
unfolding before_last_colon
before_last_colon-prefix [] h = cc
before_last_colon-prefix (c ∷ s) {host} h = elim (Option-cases (before_last_colon s)) [
  | inl none' ↦ (s, ground arith, no_colon s none')
  | inr (host', e) ↦
      let (rest, e', last) = before_last_colon-prefix s e in (rest, ground arith, last)
]

cut_bracket-prefix :
    (s : Bytes) {host behind : Bytes}
    → cut_bracket s ≡ some (host, behind)
    → s ≡ host ++ b']' ∷ behind
unfolding cut_bracket
cut_bracket-prefix [] h = cc
cut_bracket-prefix (c ∷ s) {host} {behind} h = elim (Bool-cases (c == b']')) [
  | inl here ↦ ground arith
  | inr there ↦ elim (Option-cases (cut_bracket s)) [
    | inl none' ↦ ground arith
    | inr (found, e) ↦ ground (arith, cut_bracket-prefix s {host = found.0} {behind = found.1} e)
  ]
]

is_port-IsPlain : (s : Bytes) → is_port s ≡ true → (port : Bytes) × (s ≡ b':' ∷ port) × IsPlain port
unfolding is_port
is_port-IsPlain [] h = cc
is_port-IsPlain (c ∷ s) h = (s, ground arith, (ground arith, ground arith, ground arith))

split_host-Names : (s : Bytes) (h : Bytes) → split_host s ≡ some h → Names h s
unfolding split_host bracketed
split_host-Names [] h e = cc
split_host-Names (c ∷ s) h e = elim (Bool-cases (c == b'[')) [
  | inl bracket ↦ elim (Option-cases (cut_bracket s)) [
    | inl none' ↦ ground arith
    | inr ((host, behind), cut) ↦ elim (Bool-cases (is_port behind)) [
      | inr bad ↦ absurd (ground arith)
      | inl good ↦
          let (port, spelled, plain) = is_port-IsPlain behind good in
          let before = cut_bracket-prefix s {host = host} {behind = behind} cut in
          inr (inr (port, ground arith, plain))
    ]
  ]
  | inr plain ↦ elim (Option-cases (before_last_colon (c ∷ s))) [
    | inl none' ↦ ground arith
    | inr (host, before) ↦
        let (rest, spelled, last) = before_last_colon-prefix (c ∷ s) before in
        let opening = contains-suffix b'[' host (b':' ∷ rest) in
        let closing = contains-suffix b']' host (b':' ∷ rest) in
        inr (inl (rest, ground arith, (last, ground arith, ground arith)))
  ]
]

named :
    (h : Bytes)
    → (bytes_eq h loopback || bytes_eq h localhost) ≡ true
    → (h ≡ loopback) ⊎ (h ≡ localhost)
named h t = ground (arith, bytes_eq_iff h loopback, bytes_eq_iff h localhost)

is_local_named :
    (s : Bytes) → is_local s ≡ true → (h : Bytes) × ((h ≡ loopback) ⊎ (h ≡ localhost)) × Names h s
unfolding is_local
is_local_named s passed = elim (Option-cases (split_host s)) [
  | inl whole ↦ (s, named s (rw whole at passed), inl refl)
  | inr (h, split) ↦ (h, named h (rw split at passed), split_host-Names s h split)
]

-- Both hosts have no colon and no bracket, so that the port is found behind each.
port_is_local :
    (h port : Bytes)
    → (h ≡ loopback) ⊎ (h ≡ localhost)
    → IsPlain port
    → is_local (h ++ b':' ∷ port) ≡ true
unfolding is_local split_host before_last_colon contains bytes_eq
port_is_local h port (inl e) (colon, opening, closing) =
    rw e (rw (before_last_colon-none port colon, before_last_colon) (rw (opening, closing) refl))
port_is_local h port (inr e) (colon, opening, closing) =
    rw e (rw (before_last_colon-none port colon, before_last_colon) (rw (opening, closing) refl))

bracket_is_local :
    (h port : Bytes)
    → (h ≡ loopback) ⊎ (h ≡ localhost)
    → IsPlain port
    → is_local (b'[' ∷ h ++ b']' ∷ b':' ∷ port) ≡ true
unfolding is_local split_host bracketed cut_bracket is_port contains bytes_eq
bracket_is_local h port (inl e) (colon, opening, closing) = rw e (rw (colon, opening, closing) refl)
bracket_is_local h port (inr e) (colon, opening, closing) = rw e (rw (colon, opening, closing) refl)

alone_is_local : (h : Bytes) → (h ≡ loopback) ⊎ (h ≡ localhost) → is_local h ≡ true
unfolding is_local split_host before_last_colon bytes_eq
alone_is_local h (inl e) = rw e refl
alone_is_local h (inr e) = rw e refl

is_local_forms :
    (s : Bytes) (h : Bytes) → (h ≡ loopback) ⊎ (h ≡ localhost) → Names h s → is_local s ≡ true
is_local_forms s h is (inl e) = rw e (alone_is_local h is)
is_local_forms s h is (inr (inl (port, e, plain))) = rw e (port_is_local h port is plain)
is_local_forms s h is (inr (inr (port, e, plain))) = rw e (bracket_is_local h port is plain)

-- A host header passes exactly if it is 127.0.0.1 or localhost, alone, or followed by a colon and
-- a port, or in brackets and followed by a colon and a port, where the port has no colon and no
-- bracket.
pub is_local-Names :
    (s : Bytes)
    → (is_local s ≡ true) ↔ ((h : Bytes) × ((h ≡ loopback) ⊎ (h ≡ localhost)) × Names h s)
is_local-Names s = (is_local_named s, λ (h, is, names). is_local_forms s h is names)
