-- ===== src/Update/Reconcile/Examples.antt =====
-- A node at v1 whose controller desires v2.
use geneza.Base.{◌≡◌, refl, true, some, [], ◌∷◌, ◌⊎◌, bytes, bytes_eq}
use geneza.Base.Int.{pos}
use geneza.Update.Reconcile.{
  is_bad, install, Desired, single_key, healthy, unhealthy, Poll, Bootstrap, reconcile,
  reconcile_all,
}
use geneza.Update.Reconcile.Commit.{Commits, Advanced, reconcile-Commits, reconcile_all-Advanced}
use geneza.Update.Reconcile.Failed.{reconcile_all-fails}

abbrev at_v1 : Bootstrap
at_v1 = record {
  st = record {
    current = bytes "v1";
    previous = [];
    bad = [];
    floor_unix = pos 100;
    root_keys_version = pos 0;
  };
  current = bytes "v1";
  last_desired = bytes "v1";
  worker = bytes "v1";
}

abbrev wants_v2 : Desired
wants_v2 = record {
  version = bytes "v2";
  manifest = some (record { version = bytes "v2"; created_unix = pos 200; installs = true });
}

abbrev good : Poll
good = record { desired = some wants_v2; root_keys = single_key; gate = healthy }

abbrev broken : Poll
broken = record { desired = some wants_v2; root_keys = single_key; gate = unhealthy }

reconcile-Commits_example :
    ((reconcile at_v1 good).current ≡ bytes "v1")
    ⊎ Commits (pos 100) wants_v2 good (reconcile at_v1 good)
reconcile-Commits_example = reconcile-Commits at_v1 good wants_v2 refl

reconcile_all-Advanced_round : Advanced at_v1 (reconcile_all at_v1 (broken ∷ good ∷ []))
reconcile_all-Advanced_round =
    reconcile_all-Advanced (broken ∷ good ∷ []) at_v1 (λ e. cc, (λ e. cc, tt))

-- The next poll offers a build of v2 that would be healthy.
reconcile_all-fails_example :
    (is_bad (reconcile at_v1 broken).st (bytes "v2") ≡ true)
    × (reconcile_all (reconcile at_v1 broken) (good ∷ []) ≡ reconcile at_v1 broken)
unfolding install bytes_eq
reconcile_all-fails_example =
    reconcile_all-fails at_v1 broken wants_v2
      (record { version = bytes "v2"; created_unix = pos 200; installs = true }) (good ∷ []) refl
      refl refl (λ e. cc) refl refl refl ((wants_v2, refl, refl), tt)
