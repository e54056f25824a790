-- ===== src/Dispatch/Backlog.antt =====
-- How fast the polls of src/modules/notifications/dispatch work off what is due: the oldest first, a
-- batch at a time.
use ecotrack_api.Common.{
  ==_refl, All, All-any_own, Bool, Bool-cases, IsSorted, List, [], any, any-eq-false_of_count, ap,
  arith, count_where, count_where-sort_by, false, inl, inr, leb, not, refl, select, some, sort_by,
  sort_by-IsSorted, suc, sym, take, true, update_where, zero, ℕ, ◌&&◌, ◌*◌, ◌+◌, ◌-◌, ◌<◌, ◌==◌,
  ◌∙◌, ◌∷◌, ◌≡◌, ◌≤◌,
}
use ecotrack_api.Db.{Db, DispatchRow, GeographyPoint, ok}
use ecotrack_api.Dispatch.{run_due_dispatches}
use ecotrack_api.Dispatch.Delivered.{deliver, notices_of, run_due_dispatches-delivers}
use ecotrack_api.Platform.Notifications.{Notice, append_notice}
use ecotrack_api.Platform.Outbox.{batch_size, due_batch, is_due, mark_claimed}

-- The polls none of whose statements fails, counted, from a state on, each at `now` or later, and
-- between them any request that leaves no more open dispatches due by `now` than it found.
pub data Polls (st_dwithin : GeographyPoint → GeographyPoint → ℕ → Bool) (now : ℕ) (db : Db)
    : ℕ → Db → Type 0 where
  here : Polls st_dwithin now db 0 db
  polled :
      {n : ℕ} {db₁ db₂ : Db} (returning : List DispatchRow → List DispatchRow)
      (fails : DispatchRow → Bool)
      → Polls st_dwithin now db n db₁
      → now ≤ db₁.clock
      → any fails (returning (due_batch db₁.clock db₁.notification_dispatches)) ≡ false
      → run_due_dispatches st_dwithin returning fails db₁ ≡ ok (tt, db₂)
      → Polls st_dwithin now db (suc n) db₂
  elsewhere :
      {n : ℕ} {db₁ db₂ : Db}
      → Polls st_dwithin now db n db₁
      → count_where (is_due now) db₂.notification_dispatches
        ≤ count_where (is_due now) db₁.notification_dispatches
      → Polls st_dwithin now db n db₂

module _ {A : Type 0} where
  -- An UPDATE that takes its hits out of the count.
  count_where-update_out :
      (p q : A → Bool) (f : A → A) (xs : List A)
      → ((x : A) → p (f x) ≡ false)
      → count_where p (update_where q f xs) ≡ count_where (λ x. p x && not (q x)) xs
  unfolding count_where update_where
  count_where-update_out p q f [] out = refl
  count_where-update_out p q f (x ∷ xs) out =
      ground (arith, count_where-update_out p q f xs out, out x)

  count_where-select :
      (p q r : A → Bool) (xs : List A)
      → ((x : A) → p x ≡ (q x && r x))
      → count_where p xs ≡ count_where r (select q xs)
  unfolding count_where select
  count_where-select p q r [] split = refl
  count_where-select p q r (x ∷ xs) split =
      ground (arith, count_where-select p q r xs split, split x)

module _ {A : Type 0} (key : A → ℕ) (now : ℕ) (q : A → Bool) where
  none_late :
      (k : ℕ) (xs : List A)
      → now < k
      → All (λ y. k ≤ key y) xs
      → count_where (λ x. leb (key x) now && not (q x)) xs ≡ 0
  unfolding count_where
  none_late k [] lt h = refl
  none_late k (x ∷ xs) lt h = let above = h.0 in ground (arith, none_late k xs lt h.1)

  count_where-some :
      (xs : List A)
      → count_where (λ x. leb (key x) now && not (q x)) xs ≤ count_where (λ x. leb (key x) now) xs
  unfolding count_where
  count_where-some [] = omega arith
  count_where-some (x ∷ xs) = let rest = count_where-some xs in ground arith

  -- Of the first `n` of a sorted table, all those due are among the hits.
  count_where-take :
      (n : ℕ) (xs : List A)
      → IsSorted key xs
      → All (λ x. q x ≡ true) (take n xs)
      → count_where (λ x. leb (key x) now && not (q x)) xs
        ≤ count_where (λ x. leb (key x) now) xs - n
  unfolding count_where
  count_where-take zero xs s h = let rest = count_where-some xs in omega arith
  count_where-take (suc n) [] s h = omega arith
  count_where-take (suc n) (x ∷ xs) s h = elim (Bool-cases (leb (key x) now)) [
    | inl due ↦ let rest = count_where-take n xs s.1 h.1 in let hit = h.0 in ground arith
    | inr late ↦ let rest = none_late (key x) xs (ground arith) s.0 in ground arith
  ]

-- One poll takes a whole batch off what was due by an earlier time, or all of it.
mark_claimed-works_off :
    (now clock : ℕ) (rows : List DispatchRow)
    → now ≤ clock
    → count_where (is_due now) (mark_claimed clock (due_batch clock rows) rows)
      ≤ count_where (is_due now) rows - batch_size
unfolding mark_claimed due_batch
mark_claimed-works_off now clock rows le =
    let due = λ (d : DispatchRow). d.due_at in
    let sorted = sort_by due (select (is_due clock) rows) in
    let batch = take batch_size sorted in
    let hit = λ (d : DispatchRow). any (λ (c : DispatchRow). c.id == d.id) batch in
    let left = λ (d : DispatchRow). leb d.due_at now && not (hit d) in
    let e₁ =
      count_where-update_out (is_due now) hit
        (λ (d : DispatchRow). record d {
          dispatched_at = some clock;
          attempts = d.attempts + 1;
          updated_at = clock;
        })
        rows (λ d. refl) in
    let e₂ =
      count_where-select (λ d. is_due now d && not (hit d)) (is_due clock) left rows
        (λ d. ground arith) in
    let e₃ = count_where-sort_by due left (select (is_due clock) rows) in
    let e₄ =
      count_where-select (is_due now) (is_due clock) (λ d. leb d.due_at now) rows
        (λ d. ground arith) in
    let e₅ = count_where-sort_by due (λ d. leb d.due_at now) (select (is_due clock) rows) in
    let own : All (λ d. hit d ≡ true) batch =
      All-any_own (λ d (c : DispatchRow). c.id == d.id) batch (λ d. ==_refl d.id) in
    let bound =
      count_where-take due now hit batch_size sorted
        (sort_by-IsSorted due (select (is_due clock) rows)) own in
    rw (e₁ ∙ e₂ ∙ sym e₃, e₄ ∙ sym e₅) bound

deliver-dispatches :
    (ns : List Notice) (db : Db)
    → (deliver ns db).notification_dispatches ≡ db.notification_dispatches
unfolding deliver
deliver-dispatches [] db = refl
deliver-dispatches (n ∷ ns) db = deliver-dispatches ns (append_notice n db)

module _ (st_dwithin : GeographyPoint → GeographyPoint → ℕ → Bool) where
  poll-dispatches :
      (returning : List DispatchRow → List DispatchRow) (fails : DispatchRow → Bool) (db db' : Db)
      → any fails (returning (due_batch db.clock db.notification_dispatches)) ≡ false
      → run_due_dispatches st_dwithin returning fails db ≡ ok (tt, db')
      → db'.notification_dispatches
        ≡ mark_claimed db.clock
            (due_batch db.clock db.notification_dispatches)
            db.notification_dispatches
  poll-dispatches returning fails db db' works h =
      let done = (run_due_dispatches-delivers st_dwithin returning fails db).0 works in
      let batch = due_batch db.clock db.notification_dispatches in
      let claimed : Db = record db {
        notification_dispatches = mark_claimed db.clock batch db.notification_dispatches;
      } in
      let same : db' ≡ deliver (notices_of st_dwithin db (returning batch)) claimed =
        ground (arith, done) in
      ap (λ (d : Db). d.notification_dispatches) same
      ∙ deliver-dispatches (notices_of st_dwithin db (returning batch)) claimed

  Polls-works_off :
      {now : ℕ} {db : Db} {n : ℕ} {db' : Db}
      → Polls st_dwithin now db n db'
      → count_where (is_due now) db'.notification_dispatches
        ≤ count_where (is_due now) db.notification_dispatches - n * batch_size
  Polls-works_off Polls.here = omega arith
  Polls-works_off {now} {db} {n} {db'}
        (Polls.polled {n = m} {db₁ = db₁} returning fails before le works h) =
      let rest = Polls-works_off before in
      let poll = mark_claimed-works_off now db₁.clock db₁.notification_dispatches le in
      rw (poll-dispatches returning fails db₁ db' works h) (omega (arith, rest, poll))
  Polls-works_off (Polls.elsewhere before le) =
      let rest = Polls-works_off before in omega (arith, rest, le)

  -- No dispatch starves: where at most `n` batches of dispatches are open and due by a time, then after
  -- `n` polls at that time or later, none of whose statements fails, and whatever requests between
  -- them that leave no more such dispatches open, every dispatch due by that time has been claimed.
  pub run_due_dispatches-drains :
      {now : ℕ} {db : Db} {n : ℕ} {db' : Db}
      → count_where (is_due now) db.notification_dispatches ≤ n * batch_size
      → Polls st_dwithin now db n db'
      → any (is_due now) db'.notification_dispatches ≡ false
  run_due_dispatches-drains {now} {db} {n} {db'} few polls =
      let left = Polls-works_off polls in
      any-eq-false_of_count (is_due now) db'.notification_dispatches (omega (arith, few, left))
