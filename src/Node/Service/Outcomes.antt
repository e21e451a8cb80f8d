-- ===== src/Node/Service/Outcomes.antt =====
-- How the set-up of a node in node/src/service.rs ends.
use event_listener.Prelude.{◌≡◌, not, some, List, [], ◌∷◌, ◌++◌}
use event_listener.Node.Tasks.{Task}
use event_listener.Node.Tasks.Ends.{Ends, part}
use event_listener.Node.Service.Partial.{first_tasks}
use event_listener.Node.Substrate.{Configuration, Crates}
use event_listener.Node.Service.{aura_task, grandpa_task, listener_task}

-- The tasks of a configuration, in their order.
module _ {Endpoint : Type 0} (config : Configuration Endpoint) where
  abbrev pub authoring_tasks : List Task
  authoring_tasks = part config.is_authority (aura_task ∷ [])

  abbrev pub grandpa_tasks : List Task
  grandpa_tasks = part (not config.disable_grandpa) (grandpa_task ∷ (listener_task ∷ []))

  abbrev pub all_tasks : List Task
  all_tasks = first_tasks config ++ (authoring_tasks ++ grandpa_tasks)

module _ (x : Crates) (config : Configuration x.Endpoint) where
  abbrev pub tasks : List Task
  tasks = all_tasks config

  abbrev pub two_parts : List Task
  two_parts = first_tasks config ++ authoring_tasks config

module _ (x : Crates) (config : Configuration x.Endpoint) where
  abbrev pub HasGenesis : Type 0
  HasGenesis =
      (client : x.Client) (w : x.World) → (h : x.Hash) × ((x.genesis_hash client w).0 ≡ some h)
