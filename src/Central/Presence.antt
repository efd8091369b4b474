-- ===== src/Central/Presence.antt =====
-- `presence` and `refreshPresence` of cmd/central/main.go over the registry.
use dc_streaming_p2p.Base.{
  ℕ, ◌≡◌, ◌≢◌, refl, ap, subst, ◌∙◌, none, some, List, [], ◌∷◌, Text, text_dec, ite, arith, inl,
  inr, Option-cases, if◌then◌else◌,
}
use dc_streaming_p2p.Base.Map.{elem}
use dc_streaming_p2p.Base.Strings.{trim_space}
use dc_streaming_p2p.Registry.Defs.{
  Registry, Peer, Result, ok, err, online, heartbeat, register, look_up, Error, not_registered,
}
use dc_streaming_p2p.Registry.Admission.{heartbeat_lem, register_lem}
use dc_streaming_p2p.Central.{or_register, connected, refresh}

-- Identifiers without blanks around them, as the subjects of tokens are.
abbrev pub Trimmed : List Text → Type 0
Trimmed [] = Unit
Trimmed (id ∷ ids) = (trim_space id ≡ id) × Trimmed ids

abbrev pub touched : ℕ → Peer → Peer
touched now p = record p { last_seen = now; state = online }

or_register-ok :
    (peer : Text) (now : ℕ) (t : Registry × Result Peer) (p : Peer)
    → t.1 ≡ ok p
    → or_register peer now t ≡ t.0
or_register-ok peer now (r, ok q) p e = refl
or_register-ok peer now (r, err q) p e = absurd (ground arith)

or_register-err :
    (peer : Text) (now : ℕ) (t : Registry × Result Peer) (e : Error)
    → t.1 ≡ err e
    → or_register peer now t ≡ (register peer now t.0).0
or_register-err peer now (r, ok q) e f = absurd (ground arith)
or_register-err peer now (r, err q) e f = refl

-- A known peer reads the same after another one's channel, and as just seen after its own.
connected-look_up :
    (id j : Text) (now : ℕ) (r : Registry) (p : Peer)
    → trim_space id ≡ id
    → look_up j now r ≡ some p
    → look_up j now (connected id now r) ≡ some (ite (text_dec id j) (touched now p) p)
unfolding connected
connected-look_up id j now r p clean e =
    let (answer, reads) = heartbeat_lem id now r in
    let t = heartbeat id now r in
    elim (Option-cases (look_up id now r)) [
      | inr (q, f) ↦
          let kept = or_register-ok id now t (touched now q) (ground arith) in
          ap (look_up j now) kept ∙ reads j ∙ ground arith
      | inl f ↦
          let apart : id ≢ j = λ q. ground (arith, subst (λ k. look_up k now r ≡ none) q f) in
          let missing = or_register-err id now t not_registered (ground arith) in
          let same_before : look_up j now t.0 ≡ some p = reads j ∙ ground arith in
          ap (look_up j now) missing ∙ (elim (register_lem id now t.0) [
            | inl (accepted, reads') ↦ reads' j ∙ rw clean (ground arith)
            | inr (refusal, reads') ↦ reads' j ∙ ground arith
          ])
    ]

-- A round of `refreshPresence`: a known peer that holds a channel reads as online, just seen, and
-- registered when it was; a known peer that holds none reads as before; in any order of the peers,
-- whose identifiers have no blanks around them, and even if the registry is full.
pub refresh-look_up :
    (ids : List Text) (j : Text) (now : ℕ) (r : Registry) (p : Peer)
    → Trimmed ids
    → look_up j now r ≡ some p
    → look_up j now (refresh ids now r) ≡ some (if elem j ids then touched now p else p)
unfolding refresh
refresh-look_up [] j now r p clean e = e
refresh-look_up (id ∷ ids) j now r p clean e =
    let next = connected-look_up id j now r p clean.0 e in
    let rest =
      refresh-look_up ids j now (connected id now r) (ite (text_dec id j) (touched now p) p) clean.1
        next in
    rest ∙ ground arith
