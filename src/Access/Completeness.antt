-- ===== src/Access/Completeness.antt =====
-- `canActivate` of backend/src/auth/guards/acp-access.guard.ts refuses nobody whom the stored rows
-- give access.
use content_pool_next.Base.{string_eq, map, IsDistinct}
use content_pool_next.Access.{AccessConfig, Credential, Database}

-- The rows of a table have ids of their own.
pub record HasKeys (db : Database) : Type 0 where
  pub credentials : IsDistinct (map (λ (c : Credential). c.id) db.credentials)
  pub configs : IsDistinct (map (λ (g : AccessConfig). g.id) db.configs)
