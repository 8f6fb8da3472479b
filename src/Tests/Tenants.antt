-- ===== src/Tests/Tenants.antt =====
-- The theorem on tenants at the tables of the fixtures.
use price_checker.Base.{none, codes}
use price_checker.Tenancy.{TenantCreate, create_tenant}
use price_checker.Tenancy.Names.{Creates, create_tenant-Creates}
use price_checker.Tests.Fixtures.{orm, session}

abbrev tenant : TenantCreate
tenant = record { name = codes "market"; plan = codes "starter"; api_quota_monthly = none }

create_tenant-Creates_example :
    let (r, s) = create_tenant orm 10000 tenant session in Creates tenant session r s
create_tenant-Creates_example = create_tenant-Creates orm tenant 10000 session
