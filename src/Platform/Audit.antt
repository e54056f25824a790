-- ===== src/Platform/Audit.antt =====
-- src/modules/audit/audit-log.service.ts: `record` and the reads of the audit log.
use ecotrack_api.Common.{
  List, Option, String, [], drop, is_value, length, select, sort_desc_by, suc, take, ℕ, ◌*◌, ◌++◌,
  ◌-◌, ◌∷◌,
}
use ecotrack_api.Db.{AuditLogRow, Db, MetaValue, Request, execute, query}

-- The argument of `record`; `?? null` is in the types.
pub record AuditEntry : Type 0 where
  pub organisation_id : Option ℕ
  pub acting_user_id : Option ℕ
  pub action : String
  pub entity_type : String
  pub entity_id : Option ℕ
  pub metadata : Option (List (String × MetaValue))

abbrev pub append_log : AuditEntry → Db → Db
append_log e db = record db {
  next_id = suc db.next_id;
  audit_logs =
      db.audit_logs
      ++ record {
        id = db.next_id;
        organisation_id = e.organisation_id;
        acting_user_id = e.acting_user_id;
        action = e.action;
        entity_type = e.entity_type;
        entity_id = e.entity_id;
        metadata = e.metadata;
        created_at = db.clock;
      }
        ∷ [];
}

abbrev pub record_audit : AuditEntry → Request (Unit {0})
record_audit e = execute (append_log e)

-- pagination-query.dto.ts: one page of a list endpoint.
pub record Paginated {ℓ} (A : Type ℓ) : Type ℓ where
  pub items : List A
  pub total : ℕ
  pub page : ℕ
  pub limit : ℕ

-- `limit`, `offset: (page - 1) * limit` and `count(*)` over the same condition.
unfoldable pub paginate {ℓ} : {A : Type ℓ} → List A → ℕ → ℕ → Paginated A
paginate rows page limit = record {
  items = take limit (drop ((page - 1) * limit) rows);
  total = length rows;
  page = page;
  limit = limit;
}

unfoldable pub list_for_org : ℕ → ℕ → ℕ → Request (Paginated AuditLogRow)
unfolding paginate
list_for_org organisation_id page limit = query λ db.
    paginate
      (sort_desc_by (λ (a : AuditLogRow). a.created_at)
        (select (λ (a : AuditLogRow). is_value a.organisation_id organisation_id) db.audit_logs))
      page limit

unfoldable pub list_platform_wide : Request (List AuditLogRow)
list_platform_wide =
    query λ db. take 200 (sort_desc_by (λ (a : AuditLogRow). a.created_at) db.audit_logs)
