-- ===== src/Deployment/Gathered.antt =====
-- The realms that a deployment starts with, from their declarations to the registry.
use pic_x.Base.{ℕ, Text, Option, List, Bool, ◌≡◌, All, In}
use pic_x.Config.Realm.{RealmConfig}
use pic_x.Config.State.{Config}
use pic_x.Deployment.Registry.{Realms}
use pic_x.Deployment.Build.{SecretStore}
use pic_x.Deployment.Reached.{IsReached}
use pic_x.Deployment.Apart.{Kept, directory_of}

module _ (to_uppercase : Text → Text) (is_file : Text → Bool) (prepare : Text → Bool)
    (resolve : SecretStore → Text → Option (List ℕ)) where
  -- Each realm is found under its name and its path, and no two of them, nor two uses of one, keep
  -- anything in the same directory.
  pub record AreGathered (c : Config) (registry : Realms) : Type 0 where
    pub reached : All (IsReached prepare resolve c registry) c.realms
    pub apart :
        (r s : RealmConfig) (j k : Kept)
        → In r c.realms
        → In s c.realms
        → directory_of c j r.name ≡ directory_of c k s.name
        → (r.name ≡ s.name) × (j ≡ k)
