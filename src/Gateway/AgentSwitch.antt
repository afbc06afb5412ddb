-- ===== src/Gateway/AgentSwitch.antt =====
-- Whether the chat agent answers: shared/gateway/agent_switch.py. The argument is the table
-- app_settings of shared/db.py.
use the_watcher.Prelude.{
  String, Bool, false, not, Option, none, some, string_is_eq, ◌==◌, if◌then◌else◌,
}
use the_watcher.Prelude.Dict.{Dict, lookup, insert}

abbrev chat_agent_key : String
chat_agent_key = "chat_agent"

abbrev is_on : Option String → Bool
is_on none = false
is_on (some value) = value == "on"

pub chat_agent_enabled : Dict String String → Bool
chat_agent_enabled settings = is_on (lookup chat_agent_key settings)

pub set_chat_agent_enabled : Bool → Dict String String → Dict String String
set_chat_agent_enabled enabled settings =
    insert chat_agent_key (if enabled then "on" else "off") settings

pub toggle_chat_agent : Dict String String → Bool × Dict String String
toggle_chat_agent settings =
    let enabled = not (chat_agent_enabled settings) in
    (enabled, set_chat_agent_enabled enabled settings)
