-- ===== src/Benchmark/Payload.antt =====
-- scripts/benchmark.py: the messages that are sent. What the module `random` draws, and the formatted
-- time, are given.
use indian_sim_sms_gateway.Prelude.{
  ℕ, zero, suc, ◌≡◌, sym, ◌∙◌, ap, true, false, List, [], ◌∷◌, ◌++◌, drop, some, All, All-get_elem?,
  get_elem?,
}
use indian_sim_sms_gateway.Prelude.Text.{
  Text, str, starts_with, contains, contains-append, show_padded, read_digits,
  read_digits-show_padded,
}
use indian_sim_sms_gateway.Gateway.Requests.{InboundSmsRequest}

pub record Draws : Type 0 where
  -- `random.choices(string.digits, k=10)`, and with k=6
  pub sender_digits : Text
  pub otp : Text
  -- an element of `otp_templates`
  pub template : Text
  -- `random.randint(1, 3)`
  pub node : ℕ
  -- an element of the priorities
  pub priority : Text
  -- `time.strftime(...)`
  pub stamp : Text

abbrev pub otp_templates : List Text
otp_templates =
    str "Your OTP for login is {otp}. Valid for 5 minutes. Do not share. -HDFC Bank"
    ∷ str "{otp} is your verification code for Amazon. It expires in 10 minutes."
    ∷ str "Dear Customer, {otp} is your One Time Password for SBI transaction."
    ∷ str "Your Paytm login OTP is {otp}. Do NOT share with anyone."
    ∷ str "{otp} - Use this code to verify your WhatsApp phone number."
    ∷ str "OTP for PhonePe transaction: {otp}. Valid for 3 min. Don't share."
    ∷ str "Your Google verification code is {otp}"
    ∷ str "{otp} is your Swiggy verification code. Valid for 5 mins."
    ∷ []

-- `template.format(otp=otp)`, where the only fields are `{otp}`; the first argument counts the
-- characters of a field that is being passed over.
unfoldable pub format_otp : ℕ → Text → Text → Text
unfolding starts_with
format_otp skip otp [] = []
format_otp (suc skip) otp (c ∷ t) = format_otp skip otp t
format_otp zero otp (c ∷ t) = elim (starts_with (str "{otp}") (c ∷ t)) [
  | true ↦ otp ++ format_otp 4 otp t
  | false ↦ c ∷ format_otp zero otp t
]

unfoldable pub generate_sms_payload : ℕ → Draws → InboundSmsRequest
unfolding format_otp show_padded
generate_sms_payload index d = record {
  sender = str "+91" ++ d.sender_digits;
  body = format_otp 0 d.otp d.template;
  timestamp = d.stamp;
  sms_id = str "bench-" ++ show_padded 6 index;
  node_id = str "esp32-bench-" ++ show_padded 2 d.node;
  encrypted = false;
  priority = d.priority;
}

-- Messages of different indexes have different ids, also those with more than six digits.
pub generate_sms_payload-distinct :
    (i j : ℕ) (d e : Draws)
    → (generate_sms_payload i d).sms_id ≡ (generate_sms_payload j e).sms_id
    → i ≡ j
unfolding generate_sms_payload
generate_sms_payload-distinct i j d e same =
    sym (read_digits-show_padded 6 i)
    ∙ ap (λ t. read_digits 0 (drop 6 t)) same
    ∙ read_digits-show_padded 6 j

bodies_have_otp : (otp : Text) → All (λ t. contains otp (format_otp 0 otp t) ≡ true) otp_templates
unfolding format_otp starts_with
bodies_have_otp otp =
    let found = λ (before after : Text). contains-append before otp after in
    (
      found (str "Your OTP for login is ") (str ". Valid for 5 minutes. Do not share. -HDFC Bank"),
      (
        found (str "") (str " is your verification code for Amazon. It expires in 10 minutes."),
        (
          found (str "Dear Customer, ") (str " is your One Time Password for SBI transaction."),
          (
            found (str "Your Paytm login OTP is ") (str ". Do NOT share with anyone."),
            (
              found (str "") (str " - Use this code to verify your WhatsApp phone number."),
              (
                found (str "OTP for PhonePe transaction: ") (str ". Valid for 3 min. Don't share."),
                (
                  found (str "Your Google verification code is ") (str ""),
                  (found (str "") (str " is your Swiggy verification code. Valid for 5 mins."), tt),
                ),
              ),
            ),
          ),
        ),
      ),
    )

-- Whichever template is drawn, the body has the OTP in it.
pub generate_sms_payload-has_otp :
    (index i : ℕ) (d : Draws)
    → get_elem? otp_templates i ≡ some d.template
    → contains d.otp (generate_sms_payload index d).body ≡ true
unfolding generate_sms_payload
generate_sms_payload-has_otp index i d e =
    All-get_elem? (λ t. contains d.otp (format_otp 0 d.otp t) ≡ true) otp_templates i
      (bodies_have_otp d.otp) e
