-- ===== src/Audit/Context.antt =====
-- audit/context.py: the actor of the current task. The ContextVar is the field `actor` of a context,
-- which also carries what an operation reads from its surroundings: the flag `audit_strict` of
-- `Settings` and the time of the transaction, which SQL's now() returns.
use aslan_core.Base.{
  ℕ, String, Bool, true, false, Option, none, some, str_eq, ◌||◌, ◌≡◌, if◌then◌else◌,
}
use aslan_core.Action.{Action, pure, raise}
use aslan_core.Result.{value_error, audit_missing_actor}

-- The five fields that the recorder copies. `metadata` is written nowhere by the modelled code.
pub record Actor : Type 0 where
  pub actor_id : String
  pub actor_kind : String
  pub client_ip : Option String
  pub user_agent : Option String
  pub request_id : Option ℕ

-- `_VALID_KINDS`
unfoldable pub valid_kind : String → Bool
valid_kind k = str_eq k "user" || str_eq k "service" || str_eq k "system"

-- The dataclass constructor with its `__post_init__`; `not actor_id` is true of the empty text.
unfoldable pub make_actor :
    {S : Type 0} → String → String → Option String → Option String → Option ℕ → Action S Actor
make_actor actor_id actor_kind client_ip user_agent request_id =
    if str_eq actor_id ""
    then raise value_error
    else if valid_kind actor_kind
    then pure (record {
      actor_id = actor_id;
      actor_kind = actor_kind;
      client_ip = client_ip;
      user_agent = user_agent;
      request_id = request_id;
    })
    else raise value_error

pub record Context : Type 0 where
  pub actor : Option Actor
  pub audit_strict : Bool
  pub now : ℕ

unfoldable pub set_actor : Option Actor → Context → Context
set_actor a c = record c { actor = a }

unfoldable pub current_actor : Context → Option Actor
current_actor c = c.actor

unfoldable pub require_actor : {S : Type 0} → Context → Action S Actor
require_actor c = elim c.actor [ none ↦ raise audit_missing_actor | some a ↦ pure a ]

-- A token holds the value that the variable had.
abbrev pub Token : Type 0
Token = Option Actor

unfoldable pub push_actor : Actor → Context → Token × Context
push_actor a c = (c.actor, record c { actor = some a })

unfoldable pub pop_actor : Token → Context → Context
pop_actor t c = record c { actor = t }

-- What `__post_init__` promises of an actor.
pub record IsActor (a : Actor) : Type 0 where
  pub named : str_eq a.actor_id "" ≡ false
  pub kind : valid_kind a.actor_kind ≡ true

-- The actor that is set, if any, was made by the constructor.
abbrev pub HasActor : Context → Type 0
HasActor c = (a : Actor) → c.actor ≡ some a → IsActor a
