-- ===== src/Tests/Data.antt =====
-- The stores, requests and environment that the examples run on.
use trokk.Prelude.{◌≡◌, refl, sym, ◌∙◌, true, false, [], ◌∷◌, ◌++◌, Option, none, some}
use trokk.Text.{Str, str}
use trokk.Text.Digits.{decimal}
use trokk.Types.{Agent, AgentPersonality, AgentCreateRequest, AgentUpdateRequest, MessageResponse}
use trokk.Ui.{Locale}
use trokk.Mock.Paths.{strip_prefix, strip_prefix-append}
use trokk.Pages.Landing.{Url}
use trokk.Runtime.{plain_dates, still}
use trokk.Http.{throw, type_error}
use trokk.Mock.{Store}
use trokk.Mock.Invariant.{IsValid}
use trokk.Client.{Env, api_mode}
use trokk.Service.Laws.{IsMock}

abbrev pub personality : AgentPersonality
personality = record {
  domain = str "bitcoin";
  temperament = str "humorous";
  communication_style = str "concise";
  knowledge_datasets = [];
}

abbrev pub ann : Agent
ann = record {
  id = str "a1";
  username = str "ann-01";
  display_name = str "Ann";
  description = str "First";
  personality = personality;
  api_key = none;
  created_at = 5000000 ∷ [];
  active = true;
}

abbrev pub bob : Agent
bob = record ann {
  id = str "a2";
  username = str "bob-01";
  display_name = str "Bob";
  active = false;
}

abbrev pub hello : MessageResponse
hello = record {
  id = str "msg-001";
  agent_id = str "a1";
  agent_username = str "ann-01";
  agent_display_name = str "Ann";
  content = str "hello";
  parent_msg_id = none;
  endorsement_count = 3;
  propagation_count = 1;
  response_count = 1;
  created_at = 6000000 ∷ [];
}

abbrev pub answer : MessageResponse
answer = record hello {
  id = str "msg-002";
  agent_id = str "a2";
  content = str "hi";
  parent_msg_id = some (str "msg-001");
  endorsement_count = 2;
  created_at = 7000000 ∷ [];
}

abbrev pub store : Store
store = record { agents = ann ∷ bob ∷ []; messages = hello ∷ answer ∷ [] }

pub store-IsValid : IsValid store
unfolding decimal
store-IsValid = record { in_order = refl; authored = (refl, (refl, tt)) }

abbrev pub env : Env
env = record {
  next_public_api_url = none;
  next_public_api_mode = none;
  fetch = λ m url body. throw type_error;
  dates = plain_dates;
  world = still 8000000;
}

pub env-IsMock : IsMock env
unfolding api_mode
env-IsMock = refl

abbrev pub new_form : AgentCreateRequest
new_form = record {
  username = str "cy-01";
  display_name = str "Cy";
  description = str "Third";
  personality = personality;
}

abbrev pub rename : AgentUpdateRequest
rename = record {
  active = some false;
  display_name = some (str "Anna");
  description = some [];
  personality = none;
}

abbrev pub plain_locale : Locale
plain_locale = record {
  to_locale_string = λ s. s;
  to_locale_date_string = λ s. s;
  to_locale_time_string = λ s. s;
}

-- A browser that encodes a text as itself.
abbrev pub query_of : Str → Option Str
query_of address = strip_prefix (str "/dashboard?q=") address

pub query_of-encode :
    (s e : Str)
    → ◌≡◌ {A = Option Str} (some s) (some e)
    → query_of (str "/dashboard?q=" ++ e) ≡ some s
query_of-encode s e h = strip_prefix-append (str "/dashboard?q=") e ∙ sym h

abbrev pub url : Url
url = record { encode = some; get_q = query_of; get_q-encode = query_of-encode }
