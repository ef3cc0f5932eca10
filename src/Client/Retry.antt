-- ===== src/Client/Retry.antt =====
-- `Knocker::with_open` of spa-client/src/lib.rs: knock, wait, connect, and again.
use spa_device.Prelude.{
  ℕ, zero, suc, ◌+◌, ◌<◌, ◌≡◌, inl, inr, refl, max, List, [], ◌∷◌, length, Result, ok, err,
  Result-cases, subst, arith,
}
use spa_device.Crypto.{Primitives, Agreement, Signing}
use spa_device.Client.File.{Error, unreachable}
use spa_device.Client.Knocker.{Knocker, Answers, send_knock}

-- The attempts from `i` on, `n` of them, fail to connect.
abbrev pub Fails : {T : Type 0} → (ℕ → Result T (List ℕ)) → ℕ → ℕ → Type 0
Fails connect i zero = Unit
Fails connect i (suc n) = ((e : List ℕ) × (connect i ≡ err e)) × Fails connect (i + 1) n

module _ {E D : Type 0} ⦃signing : Signing E D⦄ ⦃aws : Primitives⦄ {P : Type 0} ⦃dh : Agreement P⦄
    {T : Type 0} where
  -- The attempts left, the number of the next one, and the last error of `connect`. The result
  -- comes with the datagrams that were sent, the newest last.
  unfoldable pub open_rounds :
      ℕ
      → Knocker E D
      → List ℕ
      → (ℕ → Answers P)
      → (ℕ → Result T (List ℕ))
      → ℕ
      → List ℕ
      → Result T Error × List (List ℕ)
  open_rounds zero k ports answers connect i last = (err (unreachable last), [])
  open_rounds (suc left) k ports answers connect i last = elim (send_knock k (answers i) ports) [
    | err e ↦ (err e, [])
    | ok packet ↦ elim (connect i) [
      | ok value ↦ (ok value, packet ∷ [])
      | err e ↦
          let rest = open_rounds left k ports answers connect (i + 1) e in (rest.0, packet ∷ rest.1)
    ]
  ]

  -- `answers i` and `connect i` are what attempt `i` meets.
  unfoldable pub with_open :
      Knocker E D
      → List ℕ
      → ℕ
      → (ℕ → Answers P)
      → (ℕ → Result T (List ℕ))
      → Result T Error × List (List ℕ)
  unfolding open_rounds
  with_open k ports attempts answers connect =
      open_rounds (max attempts 1) k ports answers connect 0 []

  -- What a call shows, with `n` attempts left from attempt `i` on.
  pub data Outcome (k : Knocker E D) (ports : List ℕ) (answers : ℕ → Answers P)
      (connect : ℕ → Result T (List ℕ)) (n i : ℕ) : Result T Error × List (List ℕ) → Type 0 where
    connects :
        (value : T) (sent : List (List ℕ)) (tries : ℕ)
        → tries < n
        → length sent ≡ suc tries
        → Fails connect i tries
        → connect (i + tries) ≡ ok value
        → Outcome k ports answers connect n i (ok value, sent)
    gives_up :
        (last : List ℕ) (sent : List (List ℕ))
        → length sent ≡ n
        → Fails connect i n
        → Outcome k ports answers connect n i (err (unreachable last), sent)
    cannot_send :
        (e : Error) (sent : List (List ℕ)) (tries : ℕ)
        → tries < n
        → length sent ≡ tries
        → Fails connect i tries
        → send_knock k (answers (i + tries)) ports ≡ err e
        → Outcome k ports answers connect n i (err e, sent)

  one_more :
      (k : Knocker E D) (ports : List ℕ) (answers : ℕ → Answers P) (connect : ℕ → Result T (List ℕ))
      (n i : ℕ) (packet e : List ℕ) (r : Result T Error × List (List ℕ))
      → connect i ≡ err e
      → Outcome k ports answers connect n (i + 1) r
      → Outcome k ports answers connect (suc n) i (r.0, packet ∷ r.1)
  one_more k ports answers connect n i packet e _ failed
        (connects value sent tries lt size fails good) =
      connects value (packet ∷ sent) (suc tries) (omega arith) (omega arith) ((e, failed), fails)
        (subst (λ (j : ℕ). connect j ≡ ok value) {x = i + 1 + tries} {y = i + suc tries}
          (omega arith) good)
  one_more k ports answers connect n i packet e _ failed (gives_up last sent size fails) =
      gives_up last (packet ∷ sent) (omega arith) ((e, failed), fails)
  one_more k ports answers connect n i packet e _ failed
        (cannot_send e' sent tries lt size fails bad) =
      cannot_send e' (packet ∷ sent) (suc tries) (omega arith) (omega arith) ((e, failed), fails)
        (subst (λ (j : ℕ). send_knock k (answers j) ports ≡ err e') {x = i + 1 + tries}
          {y = i + suc tries} (omega arith) bad)

  open_rounds-Outcome :
      (k : Knocker E D) (ports : List ℕ) (answers : ℕ → Answers P) (connect : ℕ → Result T (List ℕ))
      (n i : ℕ) (last : List ℕ)
      → Outcome k ports answers connect n i (open_rounds n k ports answers connect i last)
  unfolding open_rounds
  open_rounds-Outcome k ports answers connect zero i last = gives_up last [] refl tt
  open_rounds-Outcome k ports answers connect (suc n) i last =
      elim (Result-cases (send_knock k (answers i) ports)) [
        | inr (e, bad) ↦
            rw (open_rounds, bad)
              (cannot_send e [] 0 (omega arith) refl tt (
                subst (λ (j : ℕ). send_knock k (answers j) ports ≡ err e) {x = i} {y = i + 0}
                  (omega arith) bad))
        | inl (packet, sent) ↦ elim (Result-cases (connect i)) [
          | inl (value, good) ↦
              rw (open_rounds, sent, good)
                (connects value (packet ∷ []) 0 (omega arith) refl tt
                  (subst (λ (j : ℕ). connect j ≡ ok value) {x = i} {y = i + 0} (omega arith) good))
          | inr (e, failed) ↦
              rw (open_rounds, sent, failed)
                (one_more k ports answers connect n i packet e
                  (open_rounds n k ports answers connect (i + 1) e) failed
                  (open_rounds-Outcome k ports answers connect n (i + 1) e))
        ]
      ]

  -- `with_open` makes at most the attempts asked for, and at least one, with one knock in each: it
  -- connects at the last, or gives up after all of them, or stops at a knock that cannot be sent,
  -- every earlier attempt having failed to connect.
  pub with_open-Outcome :
      (k : Knocker E D) (ports : List ℕ) (attempts : ℕ) (answers : ℕ → Answers P)
      (connect : ℕ → Result T (List ℕ))
      → Outcome k ports answers connect
          (max attempts 1)
          0
          (with_open k ports attempts answers connect)
  unfolding with_open
  with_open-Outcome k ports attempts answers connect =
      open_rounds-Outcome k ports answers connect (max attempts 1) 0 []
