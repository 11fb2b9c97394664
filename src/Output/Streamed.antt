-- ===== src/Output/Streamed.antt =====
-- What a client that follows a stream has got in the end.
use vfront.Common.{
  ℕ, Str, List, [], ◌∷◌, ◌++◌, Bool, true, not, ◌&&◌, Option, none, some, ◌≡◌, refl, sym, ap, subst,
  ◌∙◌, inl, inr, Bool-cases, drop-append, if◌then◌else◌, arith,
}
use mathlib.Core.List.{append_assoc, append-nil}
use vfront.Output.{
  StreamKind, undecided, as_text, as_tool_calls, StreamState, text_output, is_empty, is_undecided,
  is_text, new_state, is_blank, decided, update, normalize_assistant_output, deferred, finalize,
}

abbrev pub or_nothing : Option Str → Str
or_nothing none = []
or_nothing (some s) = s

-- Everything that the engine has written.
abbrev pub joined : List Str → Str
joined [] = []
joined (chunk ∷ chunks) = chunk ++ joined chunks

module _ (is_space : ℕ → Bool) where
  -- The engine's text grows by one chunk after another; what `update` returns is sent.
  unfoldable pub follow : StreamState → List Str → StreamState × Str
  follow s [] = (s, [])
  follow s (chunk ∷ chunks) =
      let (s1, sent) = update is_space s (s.text ++ chunk) none in
      let (s2, more) = follow s1 chunks in (s2, or_nothing sent ++ more)

  -- How the text that was streamed lies in the whole text.
  abbrev pub Placed : StreamKind → Str → Str → Type 0
  Placed undecided whole streamed = (streamed ≡ []) × (is_blank is_space whole ≡ true)
  Placed as_tool_calls whole streamed = streamed ≡ []
  Placed as_text whole streamed =
      (skipped : Str) × (is_blank is_space skipped ≡ true) × (whole ≡ skipped ++ streamed)

  pub record IsPlaced (s : StreamState) : Type 0 where
    pub placed : Placed s.kind s.text s.streamed_text

  abbrev next_streamed : StreamKind → Str → Str → Str
  next_streamed as_text streamed chunk = streamed ++ chunk
  next_streamed _ streamed chunk = streamed

  abbrev next_sent : StreamKind → Str → Str
  next_sent as_text chunk = chunk
  next_sent _ chunk = []

  -- The decision that `update` takes, by what it looks at.
  abbrev next_kind : StreamKind → Bool → Bool → StreamKind
  next_kind k blank looks =
      if is_undecided k && not blank then (if looks then as_tool_calls else as_text) else k

  abbrev step : StreamState → StreamKind → Str → StreamState × Option Str
  step s k delta =
      let next = record s { text = s.text ++ delta; kind = k } in
      if not (is_empty delta) && is_text k
      then (record next { streamed_text = s.streamed_text ++ delta }, some delta)
      else (next, none)

  abbrev advanced : StreamState → Str → StreamKind → StreamState
  advanced s chunk k = record s {
    text = s.text ++ chunk;
    kind = k;
    streamed_text = next_streamed k s.streamed_text chunk;
  }

  push :
      (s : StreamState) (k : StreamKind) (delta : Str)
      → ((step s k delta).0 ≡ advanced s delta k)
        × (or_nothing (step s k delta).1 ≡ next_sent k delta)
  push s undecided [] = (refl, refl)
  push s undecided (c ∷ delta) = (refl, refl)
  push s as_tool_calls [] = (refl, refl)
  push s as_tool_calls (c ∷ delta) = (refl, refl)
  push s as_text [] = (rw (append-nil s.streamed_text) refl, refl)
  push s as_text (c ∷ delta) = (refl, refl)

  update-eq :
      (s : StreamState) (chunk : Str)
      → let k = decided is_space s (s.text ++ chunk) in
        ((update is_space s (s.text ++ chunk) none).0 ≡ advanced s chunk k)
        × (or_nothing (update is_space s (s.text ++ chunk) none).1 ≡ next_sent k chunk)
  unfolding update
  update-eq s chunk =
      rw (drop-append s.text chunk) (push s (decided is_space s (s.text ++ chunk)) chunk)

  Placed-next :
      (k : StreamKind) (whole streamed chunk : Str) (looks : Bool)
      → Placed k whole streamed
      → let k' = next_kind k (is_blank is_space (whole ++ chunk)) looks in
        Placed k' (whole ++ chunk) (next_streamed k' streamed chunk)
  Placed-next as_tool_calls whole streamed chunk looks p = p
  Placed-next as_text whole streamed chunk looks (skipped, white, p) =
      (skipped, white, ap (λ t. t ++ chunk) p ∙ append_assoc skipped streamed chunk)
  Placed-next undecided whole streamed chunk looks (p, white) =
      elim (Bool-cases (is_blank is_space (whole ++ chunk))) [
        | inl still ↦ rw still (p, still)
        | inr ink ↦ rw ink (elim (Bool-cases looks) [
          | inl tool ↦ rw tool p
          | inr plain ↦ rw plain (whole, white, rw p refl)
        ])
      ]

  update-IsPlaced :
      (s : StreamState) (chunk : Str)
      → IsPlaced s
      → IsPlaced (advanced s chunk (decided is_space s (s.text ++ chunk)))
  unfolding decided
  update-IsPlaced s chunk p = record {
    placed = Placed-next s.kind s.text s.streamed_text chunk _ p.placed;
  }

  join_sent :
      (k : StreamKind) (streamed chunk more : Str)
      → streamed ++ (next_sent k chunk ++ more) ≡ next_streamed k streamed chunk ++ more
  join_sent undecided streamed chunk more = refl
  join_sent as_tool_calls streamed chunk more = refl
  join_sent as_text streamed chunk more = sym (append_assoc streamed chunk more)

  -- What has been sent is what the state counts as streamed, and it lies in the text.
  follow_lem :
      (s : StreamState) (chunks : List Str)
      → IsPlaced s
      → let (s', sent) = follow s chunks in
        IsPlaced s' × (s'.streamed_text ≡ s.streamed_text ++ sent)
  unfolding follow
  follow_lem s [] p = (p, sym (append-nil s.streamed_text))
  follow_lem s (chunk ∷ chunks) p =
      let k = decided is_space s (s.text ++ chunk) in
      let (next, sent) = update-eq s chunk in
      let (placed, streamed) = follow_lem (advanced s chunk k) chunks (update-IsPlaced s chunk p) in
      rw (next, sent)
        (
          placed,
          streamed ∙ sym (join_sent k s.streamed_text chunk (follow (advanced s chunk k) chunks).1),
        )

  pub follow-text :
      (s : StreamState) (chunks : List Str) → (follow s chunks).0.text ≡ s.text ++ joined chunks
  unfolding follow
  follow-text s [] = sym (append-nil s.text)
  follow-text s (chunk ∷ chunks) =
      let k = decided is_space s (s.text ++ chunk) in
      rw (update-eq s chunk).0
        (follow-text (advanced s chunk k) chunks ∙ append_assoc s.text chunk (joined chunks))

  module _ {Call : Type 0} (parse : Str → Option (List Call)) where
    -- With what `finalize` gives out late, only white text at the front is missing.
    located :
        (k : StreamKind) (whole streamed : Str)
        → Placed k whole streamed
        → (skipped : Str) × (is_blank is_space skipped ≡ true)
          × (whole
              ≡ skipped
                ++ (streamed ++ or_nothing (deferred is_space parse (text_output whole) streamed)))
    unfolding deferred
    located k [] [] p = ([], refl, refl)
    located k (c ∷ whole) [] p = ([], refl, refl)
    located as_text [] (c ∷ streamed) (skipped, white, p) =
        (skipped, white, rw (append-nil streamed) p)
    located as_text (d ∷ whole) (c ∷ streamed) (skipped, white, p) =
        (skipped, white, rw (append-nil streamed) p)
    located undecided whole (c ∷ streamed) (p, white) = absurd (cc p)
    located as_tool_calls whole (c ∷ streamed) p = absurd (cc p)

    normal_text :
        (s : Str) (has : Bool) {whole : Str}
        → normalize_assistant_output is_space parse s has ≡ text_output whole
        → s ≡ whole
    unfolding normalize_assistant_output
    normal_text s has h = ground arith

    -- Where each text that `update` gets extends the one before: if an output ends up as text, that
    -- text is what the engine has written, and what the client was sent while it streamed, with
    -- what it is sent at the end, is all of it but for white text at the front.
    pub streamed_lem :
        (has : Bool) (chunks : List Str) (whole : Str)
        → let (s, sent) = follow (new_state has) chunks in
          (finalize is_space parse s).0 ≡ text_output whole
          → let (s, sent) = follow (new_state has) chunks in
            (whole ≡ joined chunks)
            × ((skipped : Str) × (is_blank is_space skipped ≡ true)
                × (whole ≡ skipped ++ (sent ++ or_nothing (finalize is_space parse s).1)))
    unfolding finalize new_state
    streamed_lem has chunks whole h =
        let s' = (follow (new_state has) chunks).0 in
        let sent = (follow (new_state has) chunks).1 in
        let text_is : s'.text ≡ whole = normal_text s'.text s'.has_tool_definitions h in
        let (p, streamed) = follow_lem (new_state has) chunks (record { placed = (refl, refl) }) in
        let here : Placed s'.kind whole sent =
          subst (λ t. Placed s'.kind t sent) text_is
            (subst (λ t. Placed s'.kind s'.text t) streamed p.placed) in
        (
          sym text_is ∙ follow-text (new_state has) chunks,
          rw (h, streamed) (located s'.kind whole sent here),
        )
