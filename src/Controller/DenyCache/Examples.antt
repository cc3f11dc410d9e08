-- ===== src/Controller/DenyCache/Examples.antt =====
-- A principal who is suspended while a lookup is loading.
use geneza.Base.{◌≡◌, refl, true, false, none, some, inr, bytes, bytes_eq, Str}
use geneza.Base.Int.{pos, ◌+ℤ◌}
use geneza.Base.Dict.{get, put, remove}
use geneza.Controller.DenyCache.{suspended, new_deny_cache, begin_lookup, finish_lookup}
use geneza.Controller.DenyCache.System.{
  System, waiting, loaded, Step, begins, reads, finishes, Reachable, fresh, next, put_load,
}
use geneza.Controller.DenyCache.Coherence.{Reachable-hit}

abbrev ann : Str
ann = bytes "ann"

abbrev start : System
start = record {
  cache = new_deny_cache (pos 3) true;
  denied = λ t key. false;
  dirty = λ t key. false;
  loads = λ i. none;
}

-- A first lookup caches that ann is not suspended.
abbrev loading : System
loading = record start { loads = put_load start.loads 0 (some (waiting suspended ann none 0)) }

abbrev answered : System
answered = record loading {
  loads = put_load loading.loads 0 (some (loaded suspended ann none 0 (some false)));
}

abbrev cached : System
cached = record answered {
  cache = (finish_lookup answered.cache suspended ann (pos 10) none 0 (some false)).0;
  loads = put_load answered.loads 0 none;
}

start-loading : Step start loading
unfolding begin_lookup new_deny_cache get
start-loading = begins start 0 suspended ann (pos 9) none 0 refl

loading-answered : Step loading answered
unfolding put_load
loading-answered = reads loading 0 suspended ann none 0 (some false) refl (inr refl)

answered-cached : Step answered cached
unfolding put_load
answered-cached = finishes answered 0 suspended ann (pos 10) none 0 (some false) refl

reached : Reachable cached
reached = next answered cached answered-cached (
    next loading answered loading-answered
      (next start loading start-loading (fresh (pos 3) true (λ t key. false))))

Reachable-hit_example : false ≡ cached.denied suspended ann
unfolding begin_lookup new_deny_cache get put remove bytes_eq finish_lookup ◌+ℤ◌
Reachable-hit_example = Reachable-hit cached reached suspended ann (pos 11) false refl refl
