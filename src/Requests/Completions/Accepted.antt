-- ===== src/Requests/Completions/Accepted.antt =====
-- Which completion requests are accepted.
use vfront.Common.{
  ℕ, zero, suc, ◌≤◌, ℤ, pos, negsuc, true, false, Option, none, some, ◌≡◌, ◌↔◌, subst, ◌⊎◌, inl,
  inr, refl, IfGiven, if_given_iff, Within, AtLeast, Within-iff, AtLeast-iff, arith,
}
use vfront.Requests.Json.{Float}
use vfront.Requests.Checks.{Verdict, accepted, rejected, check_iff, is_between}
use vfront.Requests.Completions.{
  CompletionRequest, ServerCapabilities, default_capabilities, n_or_one, is_below, is_set,
  validate_completion_prompt_shape, best_of_given, validate_completion_best_of, then_check,
  check_prompts, validate_completion_request,
}

module _ (F : Float) where
  abbrev pub InRange : ℤ → ℤ → F.Number → Type 0
  InRange lo hi x = (F.le (F.literal lo) x ≡ true) × (F.le x (F.literal hi) ≡ true)

  InRange-iff : (lo hi : ℤ) (x : F.Number) → (is_between F lo hi x ≡ true) ↔ InRange lo hi x
  unfolding is_between
  InRange-iff lo hi x = ground arith

  -- Zero, or at most 20, at most 1 in a stream, and at least `n`.
  abbrev pub BestOf : CompletionRequest F → ℤ → Type 0
  BestOf r i =
      (b : ℕ) × (i ≡ pos b)
      × ((b ≡ 0)
          ⊎ ((b ≤ 20) × (is_set r.stream ≡ true → b ≤ 1) × ((m : ℕ) → r.n ≡ some (pos m) → m ≤ b)))

  then_check_iff :
      {P Q : Type 0} (v rest : Verdict)
      → (v ≡ accepted) ↔ P
      → (rest ≡ accepted) ↔ Q
      → (then_check F v rest ≡ accepted) ↔ (P × Q)
  then_check_iff accepted rest p q = (λ h. (p.0 refl, q.0 h), λ h. q.1 h.1)
  then_check_iff (rejected field) rest p q = (λ h. absurd (cc), λ h. absurd (cc (p.1 h.0)))

  n_below :
      (o : Option ℤ) (b : ℕ)
      → (is_below (pos (suc b)) (n_or_one o) ≡ false) ↔ ((m : ℕ) → o ≡ some (pos m) → m ≤ suc b)
  n_below none b = (λ h m e. absurd (cc), λ h. ground arith)
  n_below (some (pos zero)) b = (λ h m e. ground (arith, e), λ h. ground arith)
  n_below (some (pos (suc n))) b = (λ h m e. ground (arith, e), λ h. ground (arith, h (suc n) refl))
  n_below (some (negsuc n)) b = (λ h m e. absurd (cc), λ h. refl)

  best_of_given_iff :
      (r : CompletionRequest F) (i : ℤ) → (best_of_given F r i ≡ accepted) ↔ BestOf r i
  unfolding best_of_given
  best_of_given_iff r (negsuc i) = (λ h. absurd (cc), λ h. let (b, e, _) = h in absurd (cc))
  best_of_given_iff r (pos zero) = (λ h. (0, refl, inl refl), λ h. refl)
  best_of_given_iff r (pos (suc i)) = (
    λ h. (suc i, refl, inr (ground arith, ground arith, (n_below r.n i).0 (ground arith))),
    λ h. let (b, e, p) = h in back b e p,
  )
    where
      back :
          (b : ℕ)
          → pos (suc i) ≡ pos b
          → (b ≡ 0)
            ⊎ ((b ≤ 20) × (is_set r.stream ≡ true → b ≤ 1) × ((m : ℕ) → r.n ≡ some (pos m) → m ≤ b))
          → best_of_given F r (pos (suc i)) ≡ accepted
      back b e (inl none_wanted) = absurd (ground arith)
      back b e (inr (few, single, enough)) =
          ground (arith, (n_below r.n i).1 (λ m p. ground (arith, enough m p)))

  best_of_iff :
      (r : CompletionRequest F)
      → (validate_completion_best_of F r ≡ accepted) ↔ IfGiven (BestOf r) r.best_of
  unfolding validate_completion_best_of
  best_of_iff r =
      elim r.best_of
        as (λ o.
          (elim o [ none ↦ accepted | some i ↦ best_of_given F r i ] ≡ accepted)
          ↔ IfGiven (BestOf r) o) [
            | none ↦ (λ h a e. absurd (cc), λ h. refl)
            | some i ↦ (
              λ h a e. subst (BestOf r) (some-injective e) ((best_of_given_iff r i).0 h),
              λ h. (best_of_given_iff r i).1 (h i refl),
            )
          ]
    where
      some-injective : {i j : ℤ} → some i ≡ some j → i ≡ j
      some-injective e = cc

  -- One prompt where the server or the stream asks for that.
  abbrev pub Prompts : ServerCapabilities → CompletionRequest F → ℕ → Type 0
  Prompts caps r num_prompts =
      (caps.supports_completion_multi_prompt ≡ false → num_prompts ≤ 1)
      × (caps.supports_completion_stream_multi_prompt ≡ false
          → is_set r.stream ≡ true
          → num_prompts ≤ 1)

  check_prompts_iff :
      (caps : ServerCapabilities) (r : CompletionRequest F) (num_prompts : ℕ)
      → (check_prompts F caps r num_prompts ≡ accepted) ↔ Prompts caps r num_prompts
  unfolding check_prompts
  check_prompts_iff caps r num_prompts = (λ h. (ground arith, ground arith), λ h. ground arith)

  -- A completion request is accepted exactly if its prompt has an admitted shape, each number that it
  -- gives is in its range, `best_of` is 0 or covers `n`, is at most 20 and at most 1 in a stream, and
  -- there is one prompt where the capabilities ask for one.
  pub validate_completion_request_iff :
      (caps : ServerCapabilities) (r : CompletionRequest F) (num_prompts : ℕ)
      → (validate_completion_request F caps r num_prompts ≡ accepted) ↔ (
          (validate_completion_prompt_shape F r.prompt ≡ accepted)
          × (IfGiven (InRange (pos 0) (pos 2)) r.temperature
              × (IfGiven (InRange (pos 0) (pos 1)) r.top_p
                  × (IfGiven (Within 1 128) r.n
                      × (IfGiven (AtLeast 0) r.max_tokens
                          × (IfGiven (Within 0 5) r.logprobs
                              × (IfGiven (InRange (negsuc 1) (pos 2)) r.presence_penalty
                                  × (IfGiven (InRange (negsuc 1) (pos 2)) r.frequency_penalty
                                      × (IfGiven (BestOf r) r.best_of
                                          × Prompts caps r num_prompts)))))))))
  unfolding validate_completion_request
  validate_completion_request_iff caps r num_prompts =
      then_check_iff _ _ (λ h. h, λ h. h)
        (check_iff _ _ _ (if_given_iff _ _ (InRange-iff (pos 0) (pos 2)) r.temperature) (
          check_iff _ _ _ (if_given_iff _ _ (InRange-iff (pos 0) (pos 1)) r.top_p) (
            check_iff _ _ _ (if_given_iff _ _ (Within-iff 1 128) r.n) (
              check_iff _ _ _ (if_given_iff _ _ (AtLeast-iff 0) r.max_tokens) (
                check_iff _ _ _ (if_given_iff _ _ (Within-iff 0 5) r.logprobs) (
                  check_iff _ _ _
                    (if_given_iff _ _ (InRange-iff (negsuc 1) (pos 2)) r.presence_penalty)
                    (check_iff _ _ _
                      (if_given_iff _ _ (InRange-iff (negsuc 1) (pos 2)) r.frequency_penalty)
                      (then_check_iff _ _ (best_of_iff r)
                        (check_prompts_iff caps r num_prompts)))))))))

  -- With the server's capabilities, a streaming completion that is accepted has one prompt, and if it
  -- asks for a positive `best_of`, it asks for one choice.
  pub streaming_is_single :
      (r : CompletionRequest F) (num_prompts m b : ℕ)
      → validate_completion_request F default_capabilities r num_prompts ≡ accepted
      → r.stream ≡ some true
      → r.n ≡ some (pos m)
      → r.best_of ≡ some (pos (suc b))
      → (num_prompts ≤ 1) × (m ≡ 1) × (b ≡ 0)
  streaming_is_single r num_prompts m b h streaming gives_n gives_best =
      let (s, (t, (p, (in_n, (x, (l, (pp, (fp, (best, prompts))))))))) =
        (validate_completion_request_iff default_capabilities r num_prompts).0 h in
      let (k, e, from, to) = in_n (pos m) gives_n in
      let (c, e', q) = best (pos (suc b)) gives_best in
      (prompts.1 refl (rw streaming refl), single k e from c e' q, least c e' q)
    where
      least :
          (c : ℕ)
          → pos (suc b) ≡ pos c
          → (c ≡ 0)
            ⊎ ((c ≤ 20) × (is_set r.stream ≡ true → c ≤ 1) × ((m : ℕ) → r.n ≡ some (pos m) → m ≤ c))
          → b ≡ 0
      least c e (inl z) = absurd (ground arith)
      least c e (inr (few, one, enough)) = let h' = one (rw streaming refl) in ground arith

      single :
          (k : ℕ)
          → pos m ≡ pos k
          → 1 ≤ k
          → (c : ℕ) → pos (suc b) ≡ pos c
          → (c ≡ 0)
            ⊎ ((c ≤ 20) × (is_set r.stream ≡ true → c ≤ 1) × ((m : ℕ) → r.n ≡ some (pos m) → m ≤ c))
          → m ≡ 1
      single k e from c e' (inl z) = absurd (ground arith)
      single k e from c e' (inr (few, one, enough)) =
          let h' = one (rw streaming refl) in let h'' = enough m gives_n in ground arith
