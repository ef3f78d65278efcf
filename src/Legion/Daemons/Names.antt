-- ===== src/Legion/Daemons/Names.antt =====
-- The names of the daemons of hw4/src/cli.c: what each operation makes of them.
use mathlib.Core.Path.{subst}
use c_starter_projects.Prelude.{◌≡◌, refl, ◌≢◌, true, false, none, some, List, [], ◌∷◌, arith, All}
use c_starter_projects.Prelude.Strings.{Text, same_text, same_text→eq, same_text_self}
use c_starter_projects.Legion.Daemons.{Daemon, find_daemon, write_found}

abbrev pub names : List Daemon → List Text
names [] = []
names (d ∷ rest) = d.daemon_name ∷ names rest

abbrev pub KeepsName : (Daemon → Daemon) → Type 0
KeepsName f = (d : Daemon) → (f d).daemon_name ≡ d.daemon_name

pub names-write_found :
    (name : Text) (f : Daemon → Daemon)
    → KeepsName f
    → (ds : List Daemon) → names (write_found name f ds) ≡ names ds
unfolding write_found
names-write_found name f keeps [] = refl
names-write_found name f keeps (d ∷ rest) =
    ground (arith, keeps d, names-write_found name f keeps rest)

pub find_daemon-name :
    (name : Text) (ds : List Daemon) (d : Daemon)
    → find_daemon name ds ≡ some d
    → d.daemon_name ≡ name
unfolding find_daemon
find_daemon-name name [] d h = ground arith
find_daemon-name name (e ∷ rest) d h =
    ground (arith, h, same_text→eq e.daemon_name name, find_daemon-name name rest d)

differs : (s t : Text) → same_text s t ≡ false → s ≢ t
differs s t h e =
    let same : same_text s t ≡ true = subst (λ u. same_text s u ≡ true) e (same_text_self s) in
    ground (arith, h, same)

pub find_daemon-absent :
    (name : Text) (ds : List Daemon) → find_daemon name ds ≡ none → All (λ n. n ≢ name) (names ds)
unfolding find_daemon
find_daemon-absent name [] h = tt
find_daemon-absent name (d ∷ rest) h =
    ground (arith, h, differs d.daemon_name name, find_daemon-absent name rest)
