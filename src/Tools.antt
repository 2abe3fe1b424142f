-- ===== src/Tools.antt =====
-- internal/domain/tools/canonical.go: the canonical tool names.
pub mod Definition
pub mod Registry
pub mod Tests
use agentic_voice_sdr.Base.{String, List, [], ◌∷◌}

abbrev pub calendar_check_availability : String
calendar_check_availability = "calendar.check_availability"

abbrev pub calendar_create_event : String
calendar_create_event = "calendar.create_event"

abbrev pub whats_app_send_message : String
whats_app_send_message = "whatsapp.send_message"

abbrev pub memory_search : String
memory_search = "memory.search"

abbrev pub memory_store : String
memory_store = "memory.store"

abbrev pub lead_update : String
lead_update = "lead.update"

abbrev pub conversation_add_note : String
conversation_add_note = "conversation.add_note"

abbrev pub callback_schedule : String
callback_schedule = "callback.schedule"

unfoldable pub initial_tool_names : List String
initial_tool_names =
    calendar_check_availability ∷ calendar_create_event ∷ whats_app_send_message ∷ memory_search
    ∷ memory_store ∷ lead_update ∷ conversation_add_note ∷ callback_schedule ∷ []
