-- ===== src/Server/Main.antt =====
-- cmd/main.go: the loop that registers a handler for the URI of every webhook, with its check for
-- repeated URIs and the calls of http.HandleFunc. The handler of a URI is the dispatcher's in each
-- case. The rest of the start (flags, metrics, TLS, listening, shutdown) is I/O.
use managed_cluster_validati.Base.{
  String, ◌≢◌, ◌⊎◌, ◌↔◌, Bool, ◌||◌, List, [], ◌∷◌, All, Member, contains, ◌==◌, if◌then◌else◌,
}
use managed_cluster_validati.Server.Dispatcher.{Hooks}
use managed_cluster_validati.Build.Selection.{AreFresh}

-- How the loop ends: with the patterns that have a handler, the last one first, with the panic of its
-- own check, or with the panic of http.HandleFunc.
pub data Start : Type 0 where
  handling : List String → Start
  duplicate_panic mux_panic : Start

-- http.HandleFunc panics on an empty pattern, and on one that has a handler already. No other two
-- patterns that are plain paths conflict.
pub is_refused : List String → String → Bool
is_refused patterns uri = uri == "" || contains patterns uri

-- The check looks the URI up among the names that were put into `seen`.
unfoldable pub register_handlers : List String → List String → Hooks → Start
unfolding is_refused
register_handlers seen patterns [] = Start.handling patterns
register_handlers seen patterns ((name, hook) ∷ hooks) =
    let rest = register_handlers (name ∷ seen) (hook.uri ∷ patterns) hooks in
    if contains seen hook.uri
    then Start.duplicate_panic
    else if is_refused patterns hook.uri
    then Start.mux_panic
    else rest

-- The URI is neither a name that was seen nor one that comes.
abbrev IsNoName : List String → List String → String → Type 0
IsNoName seen names uri = (¬ Member uri seen) × (¬ Member uri names)

-- None of the URIs is empty.
abbrev pub AreGiven : List String → Type 0
AreGiven us = All (λ uri. uri ≢ "") us

-- The patterns are these and those of the list.
abbrev AreTaken : List String → List String → List String → Type 0
AreTaken us patterns all = (uri : String) → Member uri all ↔ (Member uri us ⊎ Member uri patterns)

-- With patterns that are free, the loop takes them all; the check's panic does not come in any case.
abbrev EndsAsFree : List String → List String → Start → Type 0
EndsAsFree us patterns (Start.handling all) =
    AreGiven us × AreFresh us patterns × AreTaken us patterns all
EndsAsFree us patterns Start.duplicate_panic = ⊥
EndsAsFree us patterns Start.mux_panic = ¬ (AreGiven us × AreFresh us patterns)

-- The start ends with handlers for just these patterns.
abbrev pub Handles : List String → Start → Type 0
Handles us (Start.handling patterns) = (uri : String) → Member uri patterns ↔ Member uri us
Handles us _ = ⊥
