-- ===== src/Signal/Mailbox.antt =====
-- What a mailbox holds (src/signal.rs), against a history of its calls.
use recomp_net_server.Common.{
  ℕ, zero, suc, ◌-◌, ◌≤◌, ◌≡◌, inl, inr, refl, sym, subst, ap, ◌∙◌, none, some, List, [], ◌∷◌, ◌++◌,
  true, false, leb, ◌==◌, String, string_eq, if◌then◌else◌, length, length-append, arith,
  Bool-cases,
}
use recomp_net_server.Common.Map
use recomp_net_server.Common.Bytes.{drop, length-drop}
use recomp_net_server.Signal.{or_default, pop_front, push_to, drain, clear_player}

pub data Call (M : Type 0) : Type 0 where
  pushed : String → M → Call M
  drained cleared : String → Call M

module _ {ℓ} {A : Type ℓ} where
  -- The last 64.
  unfoldable pub latest : List A → List A
  latest sent = drop (length sent - 64) sent

  pop_front-drop : (n : ℕ) (xs : List A) → pop_front (drop n xs) ≡ drop (suc n) xs
  unfolding pop_front
  pop_front-drop zero [] = refl
  pop_front-drop zero (x ∷ xs) = refl
  pop_front-drop (suc n) [] = refl
  pop_front-drop (suc n) (x ∷ xs) = pop_front-drop n xs

  drop-append : (n : ℕ) (xs ys : List A) → n ≤ length xs → drop n (xs ++ ys) ≡ drop n xs ++ ys
  drop-append zero xs ys h = refl
  drop-append (suc n) [] ys h = absurd (omega arith)
  drop-append (suc n) (x ∷ xs) ys h = drop-append n xs ys (omega arith)

  latest-append :
      (sent : List A) (m : A)
      → latest (sent ++ (m ∷ []))
        ≡ (if leb 64 (length (latest sent)) then pop_front (latest sent) else latest sent)
          ++ (m ∷ [])
  unfolding latest
  latest-append sent m = elim (Bool-cases (leb 64 (length sent))) [
    | inl full ↦
        let over : leb 64 (length (drop (length sent - 64) sent)) ≡ true =
          ground (arith, length-drop (length sent - 64) sent, full) in
        let n : length (sent ++ (m ∷ [])) - 64 ≡ suc (length sent - 64) =
          ground (arith, length-append sent (m ∷ []), full) in
        ap (λ k. drop k (sent ++ (m ∷ []))) n
        ∙ drop-append (suc (length sent - 64)) sent (m ∷ []) (ground (arith, full))
        ∙ rw over (ap (λ q. q ++ (m ∷ [])) (sym (pop_front-drop (length sent - 64) sent)))
    | inr room ↦
        let under : leb 64 (length (drop (length sent - 64) sent)) ≡ false =
          ground (arith, length-drop (length sent - 64) sent, room) in
        let n : length (sent ++ (m ∷ [])) - 64 ≡ length sent - 64 =
          ground (arith, length-append sent (m ∷ []), room) in
        ap (λ k. drop k (sent ++ (m ∷ []))) n
        ∙ drop-append (length sent - 64) sent (m ∷ []) (omega arith)
        ∙ rw under refl
  ]

module _ {M : Type 0} where
  unfoldable pub run : List (String × List M) → List (Call M) → List (String × List M)
  run queues [] = queues
  run queues (pushed to m ∷ calls) = run (push_to queues to m) calls
  run queues (drained p ∷ calls) = run (drain queues p).0 calls
  run queues (cleared p ∷ calls) = run (clear_player queues p) calls

  -- What a player has been sent since its mailbox was last emptied.
  unfoldable pub sent_to : String → List M → List (Call M) → List M
  sent_to p sent [] = sent
  sent_to p sent (pushed to m ∷ calls) =
      sent_to p (if to == p then sent ++ (m ∷ []) else sent) calls
  sent_to p sent (drained q ∷ calls) = sent_to p (if q == p then [] else sent) calls
  sent_to p sent (cleared q ∷ calls) = sent_to p (if q == p then [] else sent) calls

  -- What a player would be handed.
  abbrev pub held : List (String × List M) → String → List M
  held queues p = or_default (Map.get p queues)

  held-push_to :
      (queues : List (String × List M)) (to p : String) (m : M) (sent : List M)
      → held queues p ≡ latest sent
      → held (push_to queues to m) p ≡ latest (if to == p then sent ++ (m ∷ []) else sent)
  unfolding push_to or_default
  held-push_to queues to p m sent h =
      let q = held queues to in
      let kept = if leb 64 (length q) then pop_front q else q in
      elim (Bool-cases (to == p)) [
        | inr other ↦
            let got : Map.get p (Map.insert to (kept ++ (m ∷ [])) queues) ≡ Map.get p queues =
              Map.get-insert to p (kept ++ (m ∷ [])) queues ∙ rw other refl in
            rw other (ap or_default got ∙ h)
        | inl own ↦
            let (there, _) = string_eq.equal_iff to p in
            let mine : held queues to ≡ latest sent =
              subst (λ k. held queues k ≡ latest sent) {x = p} {y = to} (sym (there own)) h in
            let got : Map.get p (Map.insert to (kept ++ (m ∷ [])) queues)
                ≡ some (kept ++ (m ∷ [])) =
              Map.get-insert to p (kept ++ (m ∷ [])) queues ∙ rw own refl in
            rw own (
              ap or_default got
              ∙ ap (λ l. (if leb 64 (length l) then pop_front l else l) ++ (m ∷ [])) mine
              ∙ sym (latest-append sent m))
      ]

  held-remove :
      (queues : List (String × List M)) (q p : String) (sent : List M)
      → held queues p ≡ latest sent
      → held (Map.remove q queues) p ≡ latest (if q == p then [] else sent)
  unfolding or_default latest
  held-remove queues q p sent h = elim (Bool-cases (q == p)) [
    | inr other ↦
        let got : Map.get p (Map.remove q queues) ≡ Map.get p queues =
          Map.get-remove q p queues ∙ rw other refl in
        rw other (ap or_default got ∙ h)
    | inl own ↦
        let got : Map.get p (Map.remove q queues) ≡ none =
          Map.get-remove q p queues ∙ rw own refl in
        rw own (ap or_default got)
  ]

  held-run :
      (queues : List (String × List M)) (p : String) (sent : List M) (calls : List (Call M))
      → held queues p ≡ latest sent
      → held (run queues calls) p ≡ latest (sent_to p sent calls)
  unfolding run sent_to drain clear_player
  held-run queues p sent [] h = h
  held-run queues p sent (pushed to m ∷ calls) h =
      held-run (push_to queues to m) p (if to == p then sent ++ (m ∷ []) else sent) calls
        (held-push_to queues to p m sent h)
  held-run queues p sent (drained q ∷ calls) h =
      held-run (Map.remove q queues) p (if q == p then [] else sent) calls
        (held-remove queues q p sent h)
  held-run queues p sent (cleared q ∷ calls) h =
      held-run (Map.remove q queues) p (if q == p then [] else sent) calls
        (held-remove queues q p sent h)

  held-empty : (p : String) → held [] p ≡ latest []
  unfolding or_default latest Map.get
  held-empty p = refl

  -- After any calls on empty mailboxes, a player drains the last 64 messages that were sent to it since its
  -- mailbox was emptied, in the order in which they were sent.
  pub drain-run :
      (calls : List (Call M)) (p : String)
      → (drain (run [] calls) p).1 ≡ latest (sent_to p [] calls)
  unfolding drain or_default
  drain-run calls p = held-run [] p [] calls (held-empty p)
