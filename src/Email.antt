-- ===== src/Email.antt =====
-- backend/email_dispatcher.py: the class EmailDispatcher. Whether an attempt's SMTP call returns or
-- raises is an input, one for each attempt; spans are in seconds.
pub mod Laws
pub mod Counting
use indian_sim_sms_gateway.Prelude.{
  ℕ, zero, suc, ◌+◌, ◌^◌, Bool, true, false, not, ◌||◌, List, [], ◌∷◌, ◌++◌, is_empty,
  if◌then◌else◌,
}
use indian_sim_sms_gateway.Prelude.Int.{ℤ, pos, pos_part, ltb_ℤ, or_int}
use indian_sim_sms_gateway.Prelude.Text.{Text, str, or_text, concat}
use indian_sim_sms_gateway.Message.{QueuedMessage}

pub record EmailDispatcher : Type 0 where
  pub smtp_host : Text
  pub smtp_port : ℤ
  pub username : Text
  pub password : Text
  pub recipient : Text
  pub max_retries : ℤ
  pub total_sent : ℕ
  pub total_errors : ℕ

-- The settings that stand in for an empty or zero argument.
pub record Defaults : Type 0 where
  pub smtp_host : Text
  pub smtp_port : ℤ
  pub smtp_username : Text
  pub smtp_password : Text
  pub email_recipient : Text

unfoldable pub init : Text → ℤ → Text → Text → Text → ℤ → Defaults → EmailDispatcher
init host port username password recipient max_retries s = record {
  smtp_host = or_text host s.smtp_host;
  smtp_port = or_int port s.smtp_port;
  username = or_text username s.smtp_username;
  password = or_text password s.smtp_password;
  recipient = or_text recipient s.email_recipient;
  max_retries = max_retries;
  total_sent = 0;
  total_errors = 0;
}

-- A result, the sleeps before it, and the dispatcher.
abbrev pub Sending : Type 0
Sending = Bool × List ℕ × EmailDispatcher

abbrev after_sleeps : List ℕ → Sending → Sending
after_sleeps [] s = s
after_sleeps (t ∷ ts) s = let (r, later, d) = after_sleeps ts s in (r, t ∷ later, d)

-- The backoff after a failed attempt, which the last one leaves out.
abbrev gap : EmailDispatcher → ℕ → List ℕ
gap d attempt = if ltb_ℤ (pos (attempt + 1)) d.max_retries then (2 ^ attempt) ∷ [] else []

-- `for attempt in range(self._max_retries):`, by the number of attempts left.
unfoldable pub send_loop : (ℕ → Bool) → ℕ → ℕ → EmailDispatcher → Sending
send_loop world zero attempt d = (false, [], d)
send_loop world (suc left) attempt d =
    let rest =
      after_sleeps (gap d attempt)
        (send_loop world left (attempt + 1) (record d { total_errors = d.total_errors + 1 })) in
    if world attempt then (true, [], record d { total_sent = d.total_sent + 1 }) else rest

abbrev pub is_configured : EmailDispatcher → Bool
is_configured d =
    not (
      is_empty d.smtp_host
      || (is_empty d.username || (is_empty d.password || is_empty d.recipient)))

-- Whether aiosmtplib could be imported is the first argument.
unfoldable pub send : Bool → (ℕ → Bool) → EmailDispatcher → Sending
send installed world d =
    if not (is_configured d)
    then (false, [], d)
    else if not installed
    then (false, [], d)
    else send_loop world (pos_part d.max_retries) 0 d

-- A multipart message with a plain and an HTML version.
pub record EmailMessage : Type 0 where
  pub subject : Text
  pub from_address : Text
  pub to_address : Text
  pub text_body : Text
  pub html_body : Text

abbrev text_body_of : QueuedMessage → Text
text_body_of m = concat (
    str "SMS Gateway Notification\n\n"
    ∷ str "From: "
    ∷ m.sender
    ∷ str "\nTime: "
    ∷ m.timestamp
    ∷ str "\nNode: "
    ∷ m.node_id
    ∷ str "\n\nMessage:\n"
    ∷ m.body
    ∷ str "\n\nSMS ID: "
    ∷ m.sms_id
    ∷ [])

abbrev html_body_of : QueuedMessage → Text
html_body_of m = concat (
    str "\n"
    ∷ str "        <html>\n"
    ∷ str
        "        <body style=\"font-family: 'Segoe UI', sans-serif; max-width: 600px; margin: 0 auto;\">\n"
    ∷ str
        "            <div style=\"background: linear-gradient(135deg, #667eea 0%, #764ba2 100%);\n"
    ∷ str "                        padding: 20px; border-radius: 10px 10px 0 0;\">\n"
    ∷ str "                <h2 style=\"color: white; margin: 0;\">📱 SMS Gateway Alert</h2>\n"
    ∷ str "            </div>\n"
    ∷ str
        "            <div style=\"background: #f8f9fa; padding: 20px; border-radius: 0 0 10px 10px;\">\n"
    ∷ str "                <table style=\"width: 100%; border-collapse: collapse;\">\n"
    ∷ str "                    <tr>\n"
    ∷ str "                        <td style=\"padding: 8px; font-weight: bold;\">From:</td>\n"
    ∷ str "                        <td style=\"padding: 8px;\"><code>"
    ∷ m.sender
    ∷ str "</code></td>\n"
    ∷ str "                    </tr>\n"
    ∷ str "                    <tr>\n"
    ∷ str "                        <td style=\"padding: 8px; font-weight: bold;\">Time:</td>\n"
    ∷ str "                        <td style=\"padding: 8px;\">"
    ∷ m.timestamp
    ∷ str "</td>\n"
    ∷ str "                    </tr>\n"
    ∷ str "                    <tr>\n"
    ∷ str "                        <td style=\"padding: 8px; font-weight: bold;\">Node:</td>\n"
    ∷ str "                        <td style=\"padding: 8px;\">"
    ∷ m.node_id
    ∷ str "</td>\n"
    ∷ str "                    </tr>\n"
    ∷ str "                </table>\n"
    ∷ str "                <div style=\"background: white; padding: 15px; border-radius: 8px;\n"
    ∷ str "                            margin-top: 15px; border-left: 4px solid #667eea;\">\n"
    ∷ str "                    <p style=\"margin: 0; white-space: pre-wrap;\">"
    ∷ m.body
    ∷ str "</p>\n"
    ∷ str "                </div>\n"
    ∷ str "                <p style=\"color: #6c757d; font-size: 12px; margin-top: 15px;\">\n"
    ∷ str "                    ID: "
    ∷ m.sms_id
    ∷ str "\n"
    ∷ str "                </p>\n"
    ∷ str "            </div>\n"
    ∷ str "        </body>\n"
    ∷ str "        </html>\n"
    ∷ str "        "
    ∷ [])

unfoldable pub build_email : EmailDispatcher → QueuedMessage → EmailMessage
build_email d m = record {
  subject = str "📱 SMS Gateway: Message from " ++ m.sender;
  from_address = d.username;
  to_address = d.recipient;
  text_body = text_body_of m;
  html_body = html_body_of m;
}

pub record Metrics : Type 0 where
  pub total_sent : ℕ
  pub total_errors : ℕ

unfoldable pub metrics : EmailDispatcher → Metrics
metrics d = record { total_sent = d.total_sent; total_errors = d.total_errors }
