-- ===== src/Deployment/Tests.antt =====
-- A deployment with two realms, from its declarations to the registry.
use pic_x.Base.{ℕ, Text, Option, none, List}
use pic_x.Config.Deployed.{deployed}
use pic_x.Config.Fixture.{every_file, or_else}
use pic_x.Deployment.Registry.{Realms, no_realms}
use pic_x.Deployment.Build.{SecretStore, realms_for}

abbrev no_secret : SecretStore → Text → Option (List ℕ)
no_secret store reference = none

abbrev registry : Realms
registry = or_else no_realms (realms_for every_file no_secret deployed)
