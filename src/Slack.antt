-- ===== src/Slack.antt =====
-- slack/slack.go
use goldfish.Prelude.{String, some, [], ◌∷◌}
use goldfish.Json.{str, num, arr, values, object}
use goldfish.World.{World, http_post}
use goldfish.Exec.{Exec, gets, lift, perform, ◌>>=◌}

abbrev icon_url : String
icon_url = "https://github.com/Caiyeon/goldfish/raw/master/frontend/client/assets/logo_small.png"

module _ ⦃w : World⦄ where
  -- `PostMessageWebhook`
  unfoldable pub post_message_webhook : String → String → String → String → Exec String Unit
  post_message_webhook channel main_text attachment_text webhook = do
    ts ← gets (λ s. w.unix_time s.trace)
    payload ← lift (
        w.marshal (
          some (
            object (
              ("channel", str channel)
              ∷ ("username", str "Goldfish Vault UI")
              ∷ ("icon_url", str icon_url)
              ∷ ("text", str main_text)
              ∷ (
                "attachments",
                arr (
                    values (
                      object (
                        ("mrkdwn_in", arr (values (str "text" ∷ [])))
                        ∷ ("text", str attachment_text)
                        ∷ ("footer", str "<https://github.com/Caiyeon/goldfish|Goldfish Vault UI>")
                        ∷ ("footer_icon", str icon_url)
                        ∷ ("ts", num ts)
                        ∷ [])
                      ∷ [])),
              )
              ∷ []))))
    perform (http_post webhook "application/json" payload)
