-- ===== src/Text/HostPort.antt =====
-- SplitHostPort and JoinHostPort of Go's package net.
use secureorder.Prelude.{
  ℕ, [], ◌∷◌, ◌++◌, false, Option, none, some, ◌≡◌, refl, ap, ◌∙◌, ◌==◌, ◌||◌, not, if◌then◌else◌,
  Bool-cases, inl, inr,
}
use secureorder.Error.{Bytes}
use secureorder.Text.{split_first, contains_byte}
use secureorder.Text.Cut.{Lacks, split_first-append, contains_byte-Lacks}

-- The rest of an address behind its first `[`: the host up to `]`, if a colon and a port follow.
bracketed_host : Bytes → Bytes × Option Bytes → Option Bytes
bracketed_host s (host, none) = none
bracketed_host s (host, some []) = none
bracketed_host s (host, some (c ∷ port)) =
    if not (c == b':') || contains_byte b':' port
    then none
    else if contains_byte b'[' s || contains_byte b']' port
    then none
    else some host

plain_host : Bytes → Bytes × Option Bytes → Option Bytes
plain_host s (host, none) = none
plain_host s (host, some port) =
    if contains_byte b':' port
    then none
    else if contains_byte b'[' s || contains_byte b']' s
    then none
    else some host

-- The host of `net.SplitHostPort`, `none` for its errors, which the handlers do not tell apart: the
-- port stands behind the only colon, or behind the only colon after a host in brackets.
unfoldable pub split_host : Bytes → Option Bytes
unfolding bracketed_host plain_host
split_host [] = none
split_host (c ∷ s) =
    if c == b'['
    then bracketed_host s (split_first b']' s)
    else plain_host (c ∷ s) (split_first b':' (c ∷ s))

-- `net.JoinHostPort`.
unfoldable pub join_host_port : Bytes → Bytes → Bytes
join_host_port host port =
    if contains_byte b':' host then b'[' ∷ host ++ b']' ∷ b':' ∷ port else host ++ b':' ∷ port

contains_byte-append :
    (c : ℕ) (s t : Bytes) → contains_byte c (s ++ t) ≡ (contains_byte c s || contains_byte c t)
unfolding contains_byte
contains_byte-append c [] t = refl
contains_byte-append c (d ∷ s) t = elim (Bool-cases (d == c)) [
  | inl same ↦ rw (same, contains_byte) refl
  | inr other ↦ rw (other, contains_byte) (contains_byte-append c s t)
]

split_first_absent : (sep : ℕ) (s : Bytes) → Lacks sep s → split_first sep s ≡ (s, none)
unfolding split_first
split_first_absent sep [] h = refl
split_first_absent sep (c ∷ s) h = rw (h.0, split_first_absent sep s h.1)

-- No brackets.
abbrev pub IsUnbracketed : Bytes → Type 0
IsUnbracketed s = Lacks b'[' s × Lacks b']' s

-- A host name or an IPv4 address, or a port.
abbrev pub IsPlain : Bytes → Type 0
IsPlain s = Lacks b':' s × IsUnbracketed s

absent_both :
    (c : ℕ) (s t : Bytes)
    → contains_byte c s ≡ false
    → contains_byte c t ≡ false
    → contains_byte c (s ++ t) ≡ false
absent_both c s t h k = rw (contains_byte-append, h, k)

-- A bracket is not in the whole if it is in neither part.
unbracketed_whole :
    (c : ℕ) (host port : Bytes)
    → Lacks c host
    → Lacks c port
    → (b':' == c) ≡ false
    → contains_byte c (host ++ b':' ∷ port) ≡ false
unfolding contains_byte
unbracketed_whole c host port hh hp ne =
    absent_both c host (b':' ∷ port) (contains_byte-Lacks c host hh)
      (rw (ne, contains_byte) (contains_byte-Lacks c port hp))

plain_host-append :
    (host port : Bytes)
    → IsPlain host
    → IsPlain port
    → plain_host (host ++ b':' ∷ port) (host, some port) ≡ some host
unfolding split_host
plain_host-append host port hh hp =
    rw
      (
        contains_byte-Lacks b':' port hp.0,
        unbracketed_whole b'[' host port hh.1.0 hp.1.0 refl,
        unbracketed_whole b']' host port hh.1.1 hp.1.1 refl,
      )
      refl

pub split_host-append :
    (host port : Bytes) → IsPlain host → IsPlain port → split_host (host ++ b':' ∷ port) ≡ some host
unfolding split_host contains_byte
split_host-append [] port hh hp =
    rw (split_first-append b':' [] port _) (plain_host-append [] port hh hp)
split_host-append (c ∷ host) port hh hp =
    rw (hh.1.0.0, split_host, split_first-append b':' (c ∷ host) port hh.0)
      (plain_host-append (c ∷ host) port hh hp)

pub split_host_bracketed :
    (host port : Bytes)
    → IsUnbracketed host
    → IsPlain port
    → split_host (b'[' ∷ host ++ b']' ∷ b':' ∷ port) ≡ some host
unfolding split_host contains_byte
split_host_bracketed host port hh hp =
    ap (bracketed_host (host ++ b']' ∷ b':' ∷ port))
      (split_first-append b']' host (b':' ∷ port) hh.1)
    ∙ rw
        (
          bracketed_host,
          contains_byte-Lacks b':' port hp.0,
          contains_byte-Lacks b']' port hp.1.1,
          whole,
        )
        refl
  where
    whole : contains_byte b'[' (host ++ b']' ∷ b':' ∷ port) ≡ false
    whole =
        absent_both b'[' host (b']' ∷ b':' ∷ port) (contains_byte-Lacks b'[' host hh.0)
          (contains_byte-Lacks b'[' port hp.1.0)

pub split_host_portless : (host : Bytes) → IsPlain host → split_host host ≡ none
unfolding split_host
split_host_portless [] h = refl
split_host_portless (c ∷ host) h =
    rw (h.1.0.0, split_host, split_first_absent b':' (c ∷ host) h.0) refl

pub join_host_port_bare :
    (host port : Bytes) → Lacks b':' host → join_host_port host port ≡ host ++ b':' ∷ port
unfolding join_host_port
join_host_port_bare host port h = rw (contains_byte-Lacks b':' host h) refl
