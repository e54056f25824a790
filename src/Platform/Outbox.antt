-- ===== src/Platform/Outbox.antt =====
-- src/modules/notifications/dispatch: the outbox of deferred notifications. `schedule` and `cancel`
-- are notification-dispatch.repository.ts, `claim_batch` is the claim of
-- notification-dispatch.service.ts.
use ecotrack_api.Common.{
  Bool, List, String, [], any, count_where, if◌then◌else◌, is_none, leb, none, select, some,
  sort_by, suc, take, update_where, ℕ, ◌&&◌, ◌++◌, ◌+◌, ◌==◌, ◌∷◌, ◌≡◌,
}
use ecotrack_api.Db.{
  DispatchKind, DispatchRow, Request, execute, pure, query, same_kind, ◌>>=◌, ◌>>◌,
}

-- The row of UNIQUE (kind, entity_id).
abbrev pub is_for : DispatchKind → ℕ → DispatchRow → Bool
is_for kind entity_id d = same_kind d.kind kind && d.entity_id == entity_id

-- `INSERT … ON CONFLICT (kind, entity_id) DO UPDATE … WHERE dispatched_at IS NULL`
unfoldable pub upsert : ℕ → ℕ → DispatchKind → String → ℕ → ℕ → List DispatchRow → List DispatchRow
upsert now id kind entity_type entity_id due_at rows =
    if any (is_for kind entity_id) rows
    then update_where (λ (d : DispatchRow). is_for kind entity_id d && is_none d.dispatched_at)
        (λ (d : DispatchRow). record d { due_at = due_at; updated_at = now }) rows
    else rows
      ++ record {
        id = id;
        kind = kind;
        entity_type = entity_type;
        entity_id = entity_id;
        due_at = due_at;
        dispatched_at = none;
        attempts = 0;
        updated_at = now;
      }
        ∷ []

unfoldable pub tombstone : ℕ → DispatchKind → ℕ → List DispatchRow → List DispatchRow
tombstone now kind entity_id rows =
    update_where (λ (d : DispatchRow). is_for kind entity_id d && is_none d.dispatched_at)
      (λ (d : DispatchRow). record d { dispatched_at = some now; updated_at = now }) rows

abbrev pub schedule : DispatchKind → String → ℕ → ℕ → Request (Unit {0})
schedule kind entity_type entity_id due_at = execute λ db. record db {
  next_id = suc db.next_id;
  notification_dispatches =
      upsert db.clock db.next_id kind entity_type entity_id due_at db.notification_dispatches;
}

abbrev pub cancel : DispatchKind → ℕ → Request (Unit {0})
cancel kind entity_id = execute λ db. record db {
  notification_dispatches = tombstone db.clock kind entity_id db.notification_dispatches;
}

abbrev pub batch_size : ℕ
batch_size = 100

-- `dispatched_at IS NULL AND due_at <= now()`
abbrev pub is_due : ℕ → DispatchRow → Bool
is_due now d = is_none d.dispatched_at && leb d.due_at now

unfoldable pub due_batch : ℕ → List DispatchRow → List DispatchRow
due_batch now rows =
    take batch_size (sort_by (λ (d : DispatchRow). d.due_at) (select (is_due now) rows))

unfoldable pub mark_claimed : ℕ → List DispatchRow → List DispatchRow → List DispatchRow
mark_claimed now batch rows =
    update_where (λ (d : DispatchRow). any (λ (c : DispatchRow). c.id == d.id) batch)
      (λ (d : DispatchRow). record d {
        dispatched_at = some now;
        attempts = d.attempts + 1;
        updated_at = now;
      })
      rows

-- The order in which an UPDATE returns its rows is PostgreSQL's: `returning` lists the same rows.
abbrev pub Rearranges : (List DispatchRow → List DispatchRow) → Type 0
Rearranges returning =
    (f : DispatchRow → Bool) (xs : List DispatchRow)
    → count_where f (returning xs) ≡ count_where f xs

-- The rows claimed, as RETURNING gives their kind and entity. A poll is one step, which finds no row
-- locked, so that SKIP LOCKED skips none.
unfoldable pub claim_batch : (List DispatchRow → List DispatchRow) → Request (List DispatchRow)
claim_batch returning = do
  batch ← query λ db. due_batch db.clock db.notification_dispatches
  execute λ db. record db {
    notification_dispatches = mark_claimed db.clock batch db.notification_dispatches;
  }
  pure (returning batch)
