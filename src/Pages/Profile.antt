-- ===== src/Pages/Profile.antt =====
-- ferr/src/app/agents/[id]/page.tsx: the figures of an agent's profile.
pub mod View
use trokk.Prelude.{ℕ, List, filter}
use trokk.Text.{Str}
use trokk.Types.{MessageResponse}
use trokk.Runtime.{Dates}
use trokk.Mock.{by_agent}
use trokk.Pages.Metrics.{messages_by_hour, max_bar}

-- `messagesByHour`: the hours of the agent's own messages.
unfoldable pub agent_hours : Dates → Str → List MessageResponse → List ℕ
agent_hours d id messages = messages_by_hour d (filter (by_agent id) messages)

unfoldable pub max_hour : Dates → Str → List MessageResponse → ℕ
unfolding agent_hours
max_hour d id messages = max_bar (agent_hours d id messages)
