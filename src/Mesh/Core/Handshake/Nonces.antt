-- ===== src/Mesh/Core/Handshake/Nonces.antt =====
-- firmware/main/mesh_core.c, `next_header`: the sequence numbers and sessions of frames sent one
-- after the other. Both enter the nonce of an encrypted frame.
use open_apex.Base.{
  ℕ, suc, ◌+◌, ◌*◌, ◌%◌, ◌^◌, ◌≤◌, ◌<◌, ◌≡◌, ◌≢◌, ◌⊎◌, inl, inr, refl, ap, sym, arith, ◌∙◌,
  Bool-cases, ◌==◌, ltb, ltb→lt, if◌then◌else◌, List, [], ◌∷◌, length, u16, u32,
}
use open_apex.Mesh.Floats.{Floats}
use open_apex.Mesh.Core.{MeshCore}
use open_apex.Mesh.Core.Handshake.{next_header}

next_session : ℕ → ℕ
next_session s = u32 (s * 1103515245 + 12345)

wrap_step : (m n k : ℕ) → m ≡ (n + 1) % 2 ^ 16 → (m + k) % 2 ^ 16 ≡ (n + suc k) % 2 ^ 16
wrap_step m n k e = omega (arith, e)

next_session-ne : (s : ℕ) → next_session s % 2 ^ 24 ≢ s % 2 ^ 24
unfolding next_session
next_session-ne s e = absurd (omega arith)

module _ ⦃fl : Floats⦄ where
  -- The state after headers of the given types.
  abbrev pub headers : List ℕ → MeshCore → MeshCore
  headers [] c = c
  headers (t ∷ ts) c = headers ts (next_header c t).0

  seq_step : (c : MeshCore) (t : ℕ) → (next_header c t).0.seq ≡ (c.seq + 1) % 2 ^ 16
  unfolding next_header
  seq_step c t = refl

  session_step :
      (c : MeshCore) (t : ℕ)
      → (next_header c t).0.session
        ≡ (if u16 (c.seq + 1) == 0 then next_session c.session else c.session)
  unfolding next_header next_session
  session_step c t = refl

  headers-seq :
      (ts : List ℕ) (c : MeshCore)
      → c.seq < 2 ^ 16
      → (headers ts c).seq ≡ (c.seq + length ts) % 2 ^ 16
  headers-seq [] c h = omega arith
  headers-seq (t ∷ ts) c h =
      headers-seq ts (next_header c t).0 (omega (arith, seq_step c t))
      ∙ wrap_step (next_header c t).0.seq c.seq (length ts) (seq_step c t)

  -- Before the sequence number wraps the session stays; once it has wrapped it is the next one.
  headers-session :
      (ts : List ℕ) (c : MeshCore)
      → c.seq < 2 ^ 16
      → (c.seq + length ts < 2 ^ 16 → (headers ts c).session ≡ c.session)
        × (2 ^ 16 ≤ c.seq + length ts
            → c.seq + length ts < 2 ^ 17
            → (headers ts c).session ≡ next_session c.session)
  headers-session [] c h = (λ before. refl, λ wrapped. absurd (omega (arith, h, wrapped)))
  headers-session (t ∷ ts) c h =
      let d = (next_header c t).0 in
      let ih = headers-session ts d (omega (arith, seq_step c t)) in
      elim (Bool-cases (u16 (c.seq + 1) == 0)) [
        | inl wraps ↦ (
          λ before. absurd (ground (arith, h, wraps, before)),
          λ wrapped below.
              ih.0 (ground (arith, seq_step c t, wraps, below)) ∙ (session_step c t ∙ rw wraps),
        )
        | inr goes_on ↦ (
          λ before.
              ih.0 (ground (arith, h, seq_step c t, goes_on, before))
              ∙ (session_step c t ∙ rw goes_on),
          λ wrapped below.
              ih.1 (ground (arith, h, seq_step c t, goes_on, wrapped))
                (ground (arith, h, seq_step c t, goes_on, below))
              ∙ ap next_session (session_step c t ∙ rw goes_on),
        )
      ]

  -- No two among 65,537 frames sent one after the other have both the same sequence number and the
  -- same low three bytes of the session, which with the sender's pseudonym are the nonce under which
  -- an encrypted frame is sealed: from any state with a 16-bit sequence number, between 1 and 65,536
  -- further headers lead to other low session bytes or to another number.
  pub headers-ne :
      (ts : List ℕ) (c : MeshCore)
      → c.seq < 2 ^ 16
      → 1 ≤ length ts
      → length ts ≤ 2 ^ 16
      → ((headers ts c).session % 2 ^ 24 ≢ c.session % 2 ^ 24) ⊎ ((headers ts c).seq ≢ c.seq)
  headers-ne ts c h some_sent few = elim (Bool-cases (ltb (length ts) (2 ^ 16))) [
    | inl lt ↦ inr (λ e.
        absurd (omega (arith, h, some_sent, ltb→lt (length ts) (2 ^ 16) lt, headers-seq ts c h, e)))
    | inr ge ↦
        let wrapped =
          (headers-session ts c h).1 (ground (arith, ge)) (ground (arith, h, few, ge)) in
        inl (λ e. next_session-ne c.session (ap (λ (s : ℕ). s % 2 ^ 24) (sym wrapped) ∙ e))
  ]
