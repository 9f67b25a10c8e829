-- ===== src/Payments/Later.antt =====
-- A payment is replayed after any later payments: backend/app/features/payments/service.py.
use mathlib.Core.Path.{subst}
use nelson_lending_v.Prelude.{
  ℕ, ◌≡◌, ◌∙◌, refl, sym, ap, Bool, true, false, ◌==◌, ==_refl, ==_iff, Bool-cases, Option-cases,
  inl, inr, some,
}
use nelson_lending_v.Prelude.Result.{
  Result, ok, err, ◌>>=◌, ◌>>◌, raise_if, >>=-eq-ok, raise_if-eq_ok, ok_injective, loan_not_payable,
  integrity_error,
}
use nelson_lending_v.Store.{Store, Clock}
use nelson_lending_v.Store.Rows.{Text, Loan, Payment}
use nelson_lending_v.Store.Query.{and_left, and_right}
use nelson_lending_v.Store.Table.{
  strip, is_some, text_eq_sound, update, one_or_none, one_or_none-snoc, one_or_none-skip,
  one_or_none-found, one_or_none-update, one_or_none-untouched, text_eq_refl,
}
use nelson_lending_v.Payments.{
  PaymentPostRequest, Posted, has_key, find_idempotent_payment, assert_idempotency_match, replay,
  found_loan, is_unpayable, record_payment, prepare_payment, recover, replay_or_raise,
  post_new_payment, replay_or_post, post_payment,
}
use nelson_lending_v.Payments.Idempotency.{
  IsNewPayment, post_payment-IsNewPayment, recover-eq_ok, found_loan-eq_ok,
}
use nelson_lending_v.Payments.Prepared.{record_payment-SameLoans, IsPrepared-assert}

-- The loan is found and takes payments.
abbrev pub IsOpen : ℕ → Store → Type 0
IsOpen loan_id s =
    (l : Loan) × (one_or_none (λ (x : Loan). x.id == loan_id) s.loans ≡ ok (some l))
    × (is_unpayable l.status ≡ false)

-- One call: a request on any loan, posted or replayed, or a call elsewhere, which leaves the
-- payments alone and every open loan open.
pub data Call : Store → Store → Type 0 where
  posted :
      {s s' : Store} (clock : Clock) (loan_id : ℕ) (payload : PaymentPostRequest) (key : Text)
      {p : Payment}
      → post_payment clock loan_id payload key s ≡ ok (p, false, s')
      → Call s s'
  replayed :
      {s s' : Store} (clock : Clock) (loan_id : ℕ) (payload : PaymentPostRequest) (key : Text)
      {p : Payment}
      → post_payment clock loan_id payload key s ≡ ok (p, true, s')
      → Call s s'
  elsewhere :
      {s s' : Store}
      → s.payments ≡ s'.payments
      → ((loan_id : ℕ) → IsOpen loan_id s → IsOpen loan_id s')
      → Call s s'

-- Any number of calls.
pub data Later (s : Store) : Store → Type 0 where
  here : Later s s
  next : {t u : Store} → Later s t → Call t u → Later s u

-- The payment that a key leads to, on an open loan.
abbrev IsKept : ℕ → Text → Payment → Store → Type 0
IsKept loan_id key p s =
    IsOpen loan_id s × (one_or_none (has_key loan_id key) s.payments ≡ ok (some p))

post_payment-replay :
    (clock : Clock) (loan_id : ℕ) (payload : PaymentPostRequest) (idempotency_key : Text)
    (s : Store) {p : Payment} {s' : Store}
    → post_payment clock loan_id payload idempotency_key s ≡ ok (p, true, s')
    → s ≡ s'
unfolding post_payment post_new_payment replay
post_payment-replay clock loan_id payload idempotency_key s {p} {s'} h =
    let key = strip idempotency_key in
    let proceed : Loan → Result Posted = λ loan.
      raise_if (is_unpayable loan.status) loan_not_payable
      >> (find_idempotent_payment loan_id key s >>= λ e.
          replay_or_post e clock loan payload key s) in
    let (row, erow, h1) =
      >>=-eq-ok (one_or_none (λ (l : Loan). l.id == loan_id) s.loans)
        (λ r. found_loan r >>= proceed) h in
    let (loan, eloan, h2) = >>=-eq-ok (found_loan row) proceed h1 in
    let (payable, h3) = raise_if-eq_ok (is_unpayable loan.status) loan_not_payable _ h2 in
    let (existing, ee, h4) =
      >>=-eq-ok (find_idempotent_payment loan_id key s)
        (λ e. replay_or_post e clock loan payload key s) h3 in
    let same_id =
      (==_iff loan.id loan_id).0
        (one_or_none-found _ s.loans (erow ∙ ap ok (found_loan-eq_ok row eloan))) in
    elim (Option-cases existing) [
      | inl fresh ↦
          let again = find_idempotent_payment loan.id key s >>= λ e. replay_or_raise e payload s in
          let (prepared, ep, h5) =
            >>=-eq-ok (prepare_payment clock loan payload key s)
              (λ r. recover (record_payment clock r.0 r.1 s) again)
              (rw (fresh, post_new_payment) at h4) in
          let nothing : again ≡ err integrity_error = rw (same_id, ee, fresh) refl in
          let (same, new, stored) =
            record_payment-SameLoans clock prepared.0 prepared.1 s
              (recover-eq_ok (record_payment clock prepared.0 prepared.1 s) again nothing h5) in
          let differ : true ≡ false = new in absurd cc
      | inr (old, e) ↦
          let (checked, ec, h5) =
            >>=-eq-ok (assert_idempotency_match old payload) (λ c. ok (old, true, s))
              (rw e at h4) in
          ap (λ r. r.2) (ok_injective h5)
    ]

module _ (loan_id : ℕ) (key : Text) (p : Payment) where
  -- A payment with another key or on another loan is stored.
  new-has_key :
      (j : ℕ) (payload : PaymentPostRequest) (k : Text) (s : Store) {q : Payment} {s' : Store}
      → IsNewPayment j payload k s q s'
      → one_or_none (has_key loan_id key) s.payments ≡ ok (some p)
      → has_key loan_id key q ≡ false
  unfolding find_idempotent_payment
  new-has_key j payload k s {q = q} v kept = elim (Bool-cases (has_key loan_id key q)) [
    | inl hit ↦
        let on_loan = and_left (q.loan_id == loan_id) _ hit in
        let with_key = and_right (q.loan_id == loan_id) _ hit in
        let row_id = (==_iff v.loan.id j).0 (one_or_none-found _ s.loans v.at_loan) in
        let same_loan : j ≡ loan_id =
          sym row_id ∙ sym v.prepared.of_loan ∙ (==_iff q.loan_id loan_id).0 on_loan in
        let same_key : k ≡ key =
          sym v.prepared.with_key ∙ text_eq_sound q.idempotency_key key with_key in
        let found : find_idempotent_payment j k s ≡ ok (some p) = rw (same_loan, same_key) kept in
        let differ : false ≡ true = ap is_some (ok_injective (sym v.no_payment ∙ found)) in
        absurd cc
    | inr miss ↦ miss
  ]

  -- The loan that a payment leaves is open, and the others are as before.
  new-IsOpen :
      (j : ℕ) (payload : PaymentPostRequest) (k : Text) (s : Store) {q : Payment} {s' : Store}
      → IsNewPayment j payload k s q s'
      → IsOpen loan_id s
      → IsOpen loan_id s'
  new-IsOpen j payload k s {s' = s'} v (l, found, payable) =
      let picks : Loan → Bool = λ x. x.id == loan_id in
      let row_id = (==_iff v.loan.id j).0 (one_or_none-found _ s.loans v.at_loan) in
      let after_id : v.after.id ≡ j = v.prepared.same_loan ∙ row_id in
      elim (Bool-cases (v.after.id == loan_id)) [
        | inl same ↦ (
          v.after,
          ap (one_or_none picks) (
                v.stored.loans
                ∙ ap (λ i. update (λ (x : Loan). x.id == i) (λ x. v.after) s.loans)
                    ((==_iff v.after.id loan_id).0 same))
              ∙ one_or_none-update picks v.after s.loans found same,
          v.prepared.payable,
        )
        | inr differ ↦ (
          l,
          ap (one_or_none picks) v.stored.loans
              ∙ one_or_none-untouched picks (λ (x : Loan). x.id == v.after.id) v.after s.loans
                  differ (λ x e. rw ((==_iff x.id v.after.id).0 e) differ)
              ∙ found,
          payable,
        )
      ]

  new-IsKept :
      (j : ℕ) (payload : PaymentPostRequest) (k : Text) (s : Store) {q : Payment} {s' : Store}
      → IsNewPayment j payload k s q s'
      → IsKept loan_id key p s
      → IsKept loan_id key p s'
  new-IsKept j payload k s {q = q} {s' = s'} v (opened, kept) = (
    new-IsOpen j payload k s v opened,
    ap (one_or_none (has_key loan_id key)) v.stored.payments
        ∙ one_or_none-skip (has_key loan_id key) s.payments q (new-has_key j payload k s v kept)
        ∙ kept,
  )

  Call-IsKept : {s s' : Store} → Call s s' → IsKept loan_id key p s → IsKept loan_id key p s'
  Call-IsKept {s = s} (posted clock j payload k h) v =
      new-IsKept j payload (strip k) s (post_payment-IsNewPayment clock j payload k s h) v
  Call-IsKept {s = s} (replayed clock j payload k h) v =
      subst (IsKept loan_id key p) (post_payment-replay clock j payload k s h) v
  Call-IsKept (elsewhere same still_open) (opened, kept) =
      (still_open loan_id opened, ap (one_or_none (has_key loan_id key)) (sym same) ∙ kept)

  Later-IsKept : {s s' : Store} → IsKept loan_id key p s → Later s s' → IsKept loan_id key p s'
  Later-IsKept v here = v
  Later-IsKept v (next earlier call) = Call-IsKept call (Later-IsKept v earlier)

-- The payment that was posted, and its loan.
posted-IsKept :
    (clock : Clock) (loan_id : ℕ) (payload : PaymentPostRequest) (idempotency_key : Text)
    (s : Store) {p : Payment} {s' : Store}
    → post_payment clock loan_id payload idempotency_key s ≡ ok (p, false, s')
    → IsKept loan_id (strip idempotency_key) p s'
unfolding find_idempotent_payment
posted-IsKept clock loan_id payload idempotency_key s {p = p} {s' = s'} h =
    let key = strip idempotency_key in
    let v = post_payment-IsNewPayment clock loan_id payload idempotency_key s h in
    let same_id = (==_iff v.loan.id loan_id).0 (one_or_none-found _ s.loans v.at_loan) in
    let is_loan : (v.after.id == loan_id) ≡ true =
      rw (v.prepared.same_loan, same_id) (==_refl loan_id) in
    let at_loan : one_or_none (λ (l : Loan). l.id == loan_id) s'.loans ≡ ok (some v.after) =
      ap (one_or_none (λ (l : Loan). l.id == loan_id)) (
        v.stored.loans
        ∙ ap (λ i. update (λ (x : Loan). x.id == i) (λ x. v.after) s.loans)
            (v.prepared.same_loan ∙ same_id))
      ∙ one_or_none-update (λ (l : Loan). l.id == loan_id) v.after s.loans v.at_loan is_loan in
    let keyed : has_key loan_id key p ≡ true =
      rw (v.prepared.of_loan, same_id, v.prepared.with_key, ==_refl loan_id, text_eq_refl key)
        refl in
    let at_key : one_or_none (has_key loan_id key) s'.payments ≡ ok (some p) =
      ap (one_or_none (has_key loan_id key)) v.stored.payments
      ∙ one_or_none-snoc (has_key loan_id key) s.payments {x = p} v.no_payment keyed in
    ((v.after, at_loan, v.prepared.payable), at_key)

-- A request that posted a payment, sent again with the same key after any later requests, on whatever
-- loans and with whatever keys, and any calls elsewhere that leave the payments alone and the open
-- loans open, is answered with that payment, reported as a replay, and changes nothing.
pub post_payment_replayed :
    (clock later : Clock) (loan_id : ℕ) (payload : PaymentPostRequest) (idempotency_key : Text)
    (s : Store) {p : Payment} {s' s'' : Store}
    → post_payment clock loan_id payload idempotency_key s ≡ ok (p, false, s')
    → Later s' s''
    → post_payment later loan_id payload idempotency_key s'' ≡ ok (p, true, s'')
unfolding post_payment replay find_idempotent_payment
post_payment_replayed clock later loan_id payload idempotency_key s {p = p} {s' = s'} {s'' = s''} h
      between =
    let key = strip idempotency_key in
    let v = post_payment-IsNewPayment clock loan_id payload idempotency_key s h in
    let ((l, at_loan, payable), at_key) =
      Later-IsKept loan_id key p (posted-IsKept clock loan_id payload idempotency_key s h)
        between in
    rw (at_loan, payable, at_key, IsPrepared-assert v.loan v.after payload key p v.prepared) refl
