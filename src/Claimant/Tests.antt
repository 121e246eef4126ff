-- ===== src/Claimant/Tests.antt =====
-- One wallet that signs in.
use decentralized_claims_reg.Prelude.{
  ℕ, String, true, false, Option, none, some, List, [], ◌∷◌, ◌≡◌, refl, sym, ap, subst, ◌∙◌, inl,
  inr, arith, Bool-cases, if◌then◌else◌, ◌/◌,
}
use decentralized_claims_reg.Prelude.Lists.{find, count_where, update}
use decentralized_claims_reg.Prelude.Text.{
  str_eq, lower, text_length, has_space, has_dot, repeated, eq_iff, decimal, starts_with,
}
use decentralized_claims_reg.Postgres.{ok, err}
use decentralized_claims_reg.Scoring.Decode.{Json, text, number, Fields}
use decentralized_claims_reg.Claimant.Challenges.{ChallengeRecord}
use decentralized_claims_reg.Claimant.Sessions.{
  Tools, Settings, IssuedSession, seconds, payload_of, issue_challenge, consume_for_session,
  create_session, authenticate, storage, challenge_unusable, subject_id,
}
use decentralized_claims_reg.Claimant.Replay.{
  Request, requests, creates, consumes, serve_all, create_session-once,
}
use decentralized_claims_reg.Claimant.Limited.{issue_challenge-limited}
use decentralized_claims_reg.Claimant.Limits.{IsLimited, serve_all-IsLimited}
use decentralized_claims_reg.Claimant.RoundTrip.{IsEncoded, Laws, create_session-authenticate}

abbrev hex : String
hex = "00112233445566778899aabbccddeeff00112233445566778899aabbccddeeff"

abbrev subject : String
subject = "claimant-00112233445566778899aabbccddeeff00112233445566778899aabbccddeeff"

-- One address is known; its checksum has a capital.
abbrev checksum : Json → Option String
checksum (text w) = if str_eq (lower w) "0xab" then some "0xAb" else none
checksum _ = none

abbrev session_fields : Fields
session_fields =
    ("address", text "0xAb")
    ∷ ("exp", number 902)
    ∷ ("iat", number 2)
    ∷ ("sub", text subject)
    ∷ ("version", number 1)
    ∷ []

abbrev tools : Tools
tools = record {
  to_checksum_address = checksum;
  is_zero = λ w. false;
  is_alnum = λ t. true;
  strip = λ t. t;
  isoformat = decimal;
  uuid_text = decimal;
  recover_message = λ message signature. if str_eq signature "by 0xab" then some "0xAb" else none;
  urlsafe_b64encode = λ t. t;
  urlsafe_b64decode = λ t. if starts_with "sig" t then some "sig" else some "payload";
  without_padding = λ t. t;
  dumps = λ f. "payload";
  loads = λ t. some session_fields;
  str = λ j. elim j [ text s ↦ s | _ ↦ "" ];
  int = λ j. elim j [ number n ↦ some n | _ ↦ none ];
  digest = λ k t. some "sig";
  hexdigest = λ k t. hex;
}

abbrev settings : Settings
settings = record {
  domain = "claims.example";
  uri = "https://claims.example";
  chain_id = 11155111;
  token_key = "t";
  subject_key = "s";
  fingerprint_key = "f";
  challenge_ttl_seconds = 300;
  session_ttl_seconds = 900;
  client_limit_per_minute = 20;
  wallet_limit_per_minute = 5;
}

abbrev challenge : ChallengeRecord
challenge = record {
  challenge_id = 7;
  wallet_address = "0xab";
  nonce = "0123456789abcdef";
  message = "claims.example wants you to sign in";
  client_fingerprint = hex;
  issued_at = 1000000;
  expires_at = 301000000;
  consumed_at = none;
}

abbrev now : ℕ
now = 2000000

abbrev later : ℕ
later = 3000000

abbrev here : ℕ
here = 7

abbrev spent : ChallengeRecord
spent = record challenge { consumed_at = some now }

abbrev session : IssuedSession
session = record {
  access_token = "v1.payload.sig";
  expires_at = 902000000;
  claimant_address = "0xAb";
}

created :
    create_session tools settings here "by 0xab" now (challenge ∷ []) ≡ (ok session, spent ∷ [])
unfolding create_session find update lower
created = refl

address_known :
    (w a : String) → checksum (text w) ≡ some a → (str_eq (lower w) "0xab" ≡ true) × ("0xAb" ≡ a)
address_known w a h = elim (Bool-cases (str_eq (lower w) "0xab")) [
  | inl t ↦ (t, ground (arith, h, t))
  | inr f ↦ absurd (ground (arith, h, f))
]

abbrev Plain : String → Type 0
Plain x = IsEncoded tools settings x

payload-IsEncoded : Plain "payload"
unfolding has_dot has_space text_length repeated starts_with
payload-IsEncoded = record { dotless = refl; decodes = refl }

sig-IsEncoded : Plain "sig"
unfolding has_dot has_space text_length repeated starts_with
sig-IsEncoded = record { dotless = refl; decodes = refl }

tools-Laws : Laws tools settings now
unfolding lower text_length
tools-Laws = record {
  checksum_fixed = λ w a h.
      ap (λ x. checksum (text x)) (sym (address_known w a h).1) ∙ ap some (address_known w a h).1;
  checksum_case = λ w a p h.
      ap lower (sym (address_known w a h).1)
      ∙ sym ((eq_iff (lower w) "0xab").0 (address_known w a h).0);
  loads_dumps = λ w a h. ap (λ x. some (payload_of tools settings x w now)) (address_known w a h).1;
  payload_encoded = λ w a h. payload-IsEncoded;
  digest_encoded =
      λ k t d h. let same : "sig" ≡ d = ground (arith, h) in subst Plain same sig-IsEncoded;
  int_number = λ n. refl;
  str_text = λ s. refl;
  digits = λ k t. refl;
}

create_session-authenticate_example :
    authenticate tools settings (some session.access_token) later
    ≡ ok (record {
      subject_id = subject_id tools settings session.claimant_address;
      claimant_address = session.claimant_address;
      expires_at = seconds (session.expires_at / 1000000);
    })
unfolding starts_with
create_session-authenticate_example =
    create_session-authenticate tools settings here now later "by 0xab" session (challenge ∷ [])
      (spent ∷ []) tools-Laws (refl, tt) created (omega arith) (omega arith)

abbrev asked : List Request
asked =
    requests "0xab" "10.0.0.1" "fedcba9876543210" 8 later
    ∷ creates 8 "by 0xab" later
    ∷ consumes 8 "0xAb" later
    ∷ []

consumed_here :
    consume_for_session tools settings here "0xAb" now (challenge ∷ []) ≡ (ok session, spent ∷ [])
unfolding consume_for_session find update lower
consumed_here = refl

create_session-once_example :
    (consume_for_session tools settings here "0xAb" later
        (serve_all tools settings (spent ∷ []) asked)
      ≡ (err storage, serve_all tools settings (spent ∷ []) asked))
    × (create_session tools settings here "by 0xab" later
          (serve_all tools settings (spent ∷ []) asked)
        ≡ (err challenge_unusable, serve_all tools settings (spent ∷ []) asked))
create_session-once_example =
    create_session-once tools settings here now later "0xAb" "0xAb" "by 0xab" session
      (challenge ∷ []) (spent ∷ []) asked (tt, tt) consumed_here
      ((λ e. absurd (omega (arith, e))), (tt, (tt, tt)))

serve_all-IsLimited_example : IsLimited 20 5 (serve_all tools settings [] asked)
unfolding count_where
serve_all-IsLimited_example =
    serve_all-IsLimited tools settings asked []
      (record { by_client = λ from client. omega arith; by_wallet = λ from wallet. omega arith })

abbrev strict : Settings
strict = record settings { wallet_limit_per_minute = 1 }

issue_challenge-limited_example :
    issue_challenge tools strict "0xab" "10.0.0.1" "fedcba9876543210" 8 later (challenge ∷ [])
    ≡ (err storage, challenge ∷ [])
unfolding text_length count_where lower
issue_challenge-limited_example =
    issue_challenge-limited tools strict "0xab" "10.0.0.1" "fedcba9876543210" "0xAb" 8 later
      (challenge ∷ []) refl refl (omega arith) refl (inr (omega arith))
