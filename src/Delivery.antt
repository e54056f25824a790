-- ===== src/Delivery.antt =====
-- The outbox of src/modules/notifications/dispatch over any sequence of its users' writes: who adds
-- rows, and what is never sent twice.
pub mod Once
use ecotrack_api.Common.{
  All, All-append, All-everywhere, All-update_change, All-update_where, Bool, Bool-cases, List,
  String, [], any, arith, false, inl, inr, is_none, length, refl, suc, true, ℕ, ◌++◌, ◌+◌, ◌<◌,
  ◌==◌, ◌∷◌, ◌≡◌, ◌≤◌,
}
use ecotrack_api.Db.{Db, DispatchKind, DispatchRow, IncidentRow, ok}
use ecotrack_api.Incidents.{CreateIncident, create_incident, proximity_dispatch}
use ecotrack_api.Platform.Outbox.{
  cancel, claim_batch, due_batch, is_for, mark_claimed, schedule, tombstone, upsert,
}

abbrev pub has_dispatch_id : ℕ → DispatchRow → Bool
has_dispatch_id id d = d.id == id

-- The dispatch rows' identifiers are already handed out.
abbrev pub DispatchesFresh : Db → Type 0
DispatchesFresh db = All (λ (d : DispatchRow). d.id < db.next_id) db.notification_dispatches

-- One successful request, as the outbox sees it.
pub data OutboxStep (db db' : Db) : Type 0 where
  scheduled :
      (kind : DispatchKind) (entity_type : String) (entity_id due_at : ℕ)
      → schedule kind entity_type entity_id due_at db ≡ ok (tt, db')
      → OutboxStep db db'
  cancelled :
      (kind : DispatchKind) (entity_id : ℕ)
      → cancel kind entity_id db ≡ ok (tt, db')
      → OutboxStep db db'
  claimed :
      (returning : List DispatchRow → List DispatchRow) (batch : List DispatchRow)
      → claim_batch returning db ≡ ok (batch, db')
      → OutboxStep db db'
  reported :
      (user_id : ℕ) (d : CreateIncident) (r : IncidentRow)
      → create_incident user_id d db ≡ ok (r, db')
      → OutboxStep db db'
  elsewhere :
      db'.notification_dispatches ≡ db.notification_dispatches
      → db.next_id ≤ db'.next_id
      → OutboxStep db db'

pub data OutboxReach (db : Db) : Db → Type 0 where
  here : OutboxReach db db
  next : {db₁ db₂ : Db} → OutboxReach db db₁ → OutboxStep db₁ db₂ → OutboxReach db db₂

-- The identifier is handed out, and whatever row has it is dispatched.
pub record IsSpent (id : ℕ) (db : Db) : Type 0 where
  pub handed_out : id < db.next_id
  pub spent :
      All
        (λ (d : DispatchRow). d.id ≡ id → is_none d.dispatched_at ≡ false)
        db.notification_dispatches

upsert-spent :
    (now fresh id : ℕ) (kind : DispatchKind) (entity_type : String) (entity_id due_at : ℕ)
    (rows : List DispatchRow)
    → id < fresh
    → All (λ (d : DispatchRow). d.id ≡ id → is_none d.dispatched_at ≡ false) rows
    → All
        (λ (d : DispatchRow). d.id ≡ id → is_none d.dispatched_at ≡ false)
        (upsert now fresh kind entity_type entity_id due_at rows)
unfolding upsert
upsert-spent now fresh id kind entity_type entity_id due_at rows lt h =
    elim (Bool-cases (any (is_for kind entity_id) rows)) [
      | inl there ↦ rw there (All-update_where _ _ _ rows (λ d q keep e. keep e) h)
      | inr absent ↦ rw absent (All-append _ rows _ h ((λ e. absurd (omega arith)), tt))
    ]

tombstone-spent :
    (now id : ℕ) (kind : DispatchKind) (entity_id : ℕ) (rows : List DispatchRow)
    → All (λ (d : DispatchRow). d.id ≡ id → is_none d.dispatched_at ≡ false) rows
    → All
        (λ (d : DispatchRow). d.id ≡ id → is_none d.dispatched_at ≡ false)
        (tombstone now kind entity_id rows)
unfolding tombstone
tombstone-spent now id kind entity_id rows h = All-update_where _ _ _ rows (λ d q keep e. refl) h

mark_claimed-spent :
    (now id : ℕ) (batch rows : List DispatchRow)
    → All (λ (d : DispatchRow). d.id ≡ id → is_none d.dispatched_at ≡ false) rows
    → All
        (λ (d : DispatchRow). d.id ≡ id → is_none d.dispatched_at ≡ false)
        (mark_claimed now batch rows)
unfolding mark_claimed
mark_claimed-spent now id batch rows h = All-update_where _ _ _ rows (λ d q keep e. refl) h

-- The claim spends every identifier of its batch.
pub marked :
    (now id : ℕ) (batch rows : List DispatchRow)
    → any (has_dispatch_id id) batch ≡ true
    → All
        (λ (d : DispatchRow). d.id ≡ id → is_none d.dispatched_at ≡ false)
        (mark_claimed now batch rows)
unfolding mark_claimed
marked now id batch rows h =
    All-update_change (λ d. Unit {0})
      (λ (d : DispatchRow). d.id ≡ id → is_none d.dispatched_at ≡ false) _ _ rows (λ d q _ e. refl)
      (λ d q _ e.
        let same : any (has_dispatch_id d.id) batch ≡ true = rw e h in absurd (ground arith))
      (All-everywhere _ (λ d. tt) rows)

report_dispatches :
    (user_id : ℕ) (d : CreateIncident) (db db' : Db) (r : IncidentRow)
    → create_incident user_id d db ≡ ok (r, db')
    → (n : ℕ) × (db.next_id ≤ n)
      × (n < db'.next_id)
      × (db'.notification_dispatches
          ≡ db.notification_dispatches ++ proximity_dispatch db.clock n db.next_id ∷ [])
unfolding create_incident
report_dispatches user_id d db db' r h = elim (Bool-cases (length d.media_urls == 0)) [
  | inl none' ↦ absurd (ground arith)
  | inr some' ↦
      (suc (suc db.next_id + length d.media_urls), omega arith, ground arith, ground arith)
]

pub claim_effect :
    (returning : List DispatchRow → List DispatchRow) (db db' : Db) (batch : List DispatchRow)
    → claim_batch returning db ≡ ok (batch, db')
    → (batch ≡ returning (due_batch db.clock db.notification_dispatches))
      × (db'.notification_dispatches
          ≡ mark_claimed db.clock
              (due_batch db.clock db.notification_dispatches)
              db.notification_dispatches)
      × (db'.next_id ≡ db.next_id)
unfolding claim_batch
claim_effect returning db db' batch h = ground arith

step-IsSpent : (id : ℕ) {db db' : Db} → OutboxStep db db' → IsSpent id db → IsSpent id db'
step-IsSpent id {db} {db'} (OutboxStep.scheduled kind type entity due h) s =
    let t : db'.notification_dispatches
        ≡ upsert db.clock db.next_id kind type entity due db.notification_dispatches =
      ground arith in
    record {
      handed_out = let lt = s.handed_out in ground arith;
      spent = rw t (
          upsert-spent db.clock db.next_id id kind type entity due db.notification_dispatches
            s.handed_out s.spent);
    }
step-IsSpent id {db} {db'} (OutboxStep.cancelled kind entity h) s =
    let t : db'.notification_dispatches
        ≡ tombstone db.clock kind entity db.notification_dispatches =
      ground arith in
    record {
      handed_out = let lt = s.handed_out in ground arith;
      spent = rw t (tombstone-spent db.clock id kind entity db.notification_dispatches s.spent);
    }
step-IsSpent id {db} {db'} (OutboxStep.claimed returning batch h) s =
    let (_, t, n) = claim_effect returning db db' batch h in
    record {
      handed_out = rw n s.handed_out;
      spent = rw t (
          mark_claimed-spent db.clock id (due_batch db.clock db.notification_dispatches)
            db.notification_dispatches s.spent);
    }
step-IsSpent id {db} {db'} (OutboxStep.reported user_id d r h) s =
    let (n, above, below, t) = report_dispatches user_id d db db' r h in
    let lt = s.handed_out in
    record {
      handed_out = omega arith;
      spent =
          rw t
            (All-append _ db.notification_dispatches _ s.spent ((λ e. absurd (omega arith)), tt));
    }
step-IsSpent id {db} {db'} (OutboxStep.elsewhere t n) s =
    let lt = s.handed_out in record { handed_out = omega arith; spent = rw t s.spent }

pub reach-IsSpent : (id : ℕ) {db db' : Db} → OutboxReach db db' → IsSpent id db → IsSpent id db'
reach-IsSpent id OutboxReach.here s = s
reach-IsSpent id (OutboxReach.next r st) s = step-IsSpent id st (reach-IsSpent id r s)
