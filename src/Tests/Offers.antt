-- ===== src/Tests/Offers.antt =====
-- An event is offered to the small Redis: undisturbed, and while another process moves a revision.
use whats_app_mcp_server.Base.{ℕ, none, some, [], ◌∷◌, ◌≡◌, refl, text, text_eq, lookup, insert}
use whats_app_mcp_server.Domain.Errors.{ok}
use whats_app_mcp_server.Domain.Fingerprint.{decimal}
use whats_app_mcp_server.Redis.Decimal.{less, inc}
use whats_app_mcp_server.Redis.Store.{Store}
use whats_app_mcp_server.Redis.Script.{run}
use whats_app_mcp_server.Intake.Server.{accepted}
use whats_app_mcp_server.Repository.Accept.{Surroundings, missing, look, offer, attempts}
use whats_app_mcp_server.Repository.Attempts.{Waits, accepted-Waits}
use whats_app_mcp_server.Tests.Setup.{ports, owned}
use whats_app_mcp_server.Tests.Webhook.{message}

abbrev calm : Surroundings ℕ
calm = record {
  ports = ports;
  chats = message.canonical_chat_jid ∷ [];
  find = λ n c e. missing;
  before_lookup = λ n s. s;
  before_accept = λ n s. s;
  decode = λ t. none;
  time = 20;
}

-- Another process completes an event before each call of the script.
abbrev disturbed : Surroundings ℕ
disturbed = record calm {
  before_accept = λ n s. record s { state = record (s.state) { revision = some (text "1") } };
}

abbrev after_offer : Store ℕ
after_offer = (attempts calm message (text "h") (text "r") 8 owned).0

offer_is_accepted : attempts calm message (text "h") (text "r") 8 owned ≡ (after_offer, ok accepted)
unfolding attempts offer look run text_eq lookup insert less inc decimal
offer_is_accepted = refl

accepted-Waits_example : Waits calm message (text "h") (text "r") after_offer
accepted-Waits_example =
    accepted-Waits calm message (text "h") (text "r") 8 owned after_offer offer_is_accepted

offer_is_made_again : (offer disturbed message (text "h") (text "r") 7 owned).1 ≡ ok none
unfolding offer look run text_eq lookup insert less inc decimal
offer_is_made_again = refl
