-- ===== src/Examples/Sessions.antt =====
-- The memory store with one session in it.
use openussd.Prelude.{◌≡◌, ◌≢◌, refl, [], ◌∷◌, ok}
use openussd.Strings.{codes}
use openussd.Session.{key_string, validate_key}
use openussd.Session.Keys.{split_name, split_id, key_string_collides}
use openussd.Session.Memory.{Memory, with_ttl, new_memory, save}
use openussd.Httpx.Inbound.{new_session, key_of}
use openussd.Examples.Data.{dialled}

abbrev one_session : Memory
one_session = (save (new_memory (with_ttl 100 ∷ [])) 1 (new_session (key_of dialled) dialled)).0

key_string_collides_example :
    (validate_key (split_name (codes "a") (codes "b") (codes "c")) ≡ ok tt)
    × (validate_key (split_id (codes "a") (codes "b") (codes "c")) ≡ ok tt)
    × (key_string (split_name (codes "a") (codes "b") (codes "c"))
        ≡ key_string (split_id (codes "a") (codes "b") (codes "c")))
    × (split_name (codes "a") (codes "b") (codes "c")
        ≢ split_id (codes "a") (codes "b") (codes "c"))
key_string_collides_example = key_string_collides (codes "a") (codes "b") (codes "c") refl refl
