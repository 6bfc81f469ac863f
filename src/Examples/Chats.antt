-- ===== src/Examples/Chats.antt =====
-- A log in two chunks with a keyword across them, moderation settings that are saved, and an organisation
-- whose account is deleted.
use mastermind_7dtd_ai_serve.Base.{
  ℕ, Option, if◌then◌else◌, ◌≤◌, ◌≡◌, refl, Bool, true, false, none, some, [], ◌∷◌, ◌⊎◌, length,
  any, find_first, count_where, All,
}
use mastermind_7dtd_ai_serve.Base.Text.{Text, lit, text_eq}
use mastermind_7dtd_ai_serve.Base.Result.{Result, ok, err}
use mastermind_7dtd_ai_serve.Schema.{Json, num, str, arr, nil, cons}
use mastermind_7dtd_ai_serve.World.{World}
use mastermind_7dtd_ai_serve.Guards.{not_a_member, role_of, jwt_auth, authorize}
use mastermind_7dtd_ai_serve.Pairing.{bearer_token}
use mastermind_7dtd_ai_serve.Organisations.{Directory, admin_count, delete_account}
use mastermind_7dtd_ai_serve.Organisations.Admission.{delete_account-authorize}
use mastermind_7dtd_ai_serve.Logs.{LogBook, LogError}
use mastermind_7dtd_ai_serve.Logs.Words.{warn, clean_bad_word_rules}
use mastermind_7dtd_ai_serve.Logs.WordRules.{
  words_in, is_word, IsWord, AreDistinct, clean_bad_word_rules-AreDistinct,
}
use mastermind_7dtd_ai_serve.Logs.Moderation.{
  ModerationInput, get_chat_moderation, update_chat_moderation,
}
use mastermind_7dtd_ai_serve.Logs.StoredSettings.{ChatModeration}
use mastermind_7dtd_ai_serve.Logs.Saved.{update_chat_moderation-get_chat_moderation}
use mastermind_7dtd_ai_serve.Examples.Waves.{ok_or}
use mastermind_7dtd_ai_serve.Examples.Notices.{board}

abbrev no_iso : ℕ → Text
no_iso t = []

abbrev words : Json
words = arr (cons (str (lit " Bad ")) (cons (str (lit "bad")) (cons (num 7) nil)))

clean_bad_word_rules-AreDistinct_example :
    let rs = clean_bad_word_rules no_iso words warn in
    (length rs ≤ 200)
    × All (λ r. IsWord r.word) rs
    × AreDistinct rs
    × All
        (λ t. (is_word t ≡ false) ⊎ (length rs ≡ 200) ⊎ (any (λ r. text_eq r.word t) rs ≡ true))
        (words_in no_iso words)
clean_bad_word_rules-AreDistinct_example = clean_bad_word_rules-AreDistinct no_iso words warn

abbrev world : World
world = record {
  runs = [];
  jobs = [];
  batches = [];
  instances =
      record {
        id = 2;
        org_id = 1;
        host_id = 3;
        game_type = lit "7dtd";
        name = lit "S";
        install_path = none;
        start_command = none;
        telnet_host = none;
        telnet_port = none;
        telnet_password = none;
        config = none;
        avoid_blood_moon_restart = false;
      }
      ∷ [];
  members = [];
  queue = [];
  audits = [];
  progress = [];
  syncs = [];
  unlinked = [];
  next_id = 10;
}

abbrev pub book : LogBook
book = record {
  board = board;
  world = world;
  logs = [];
  events = [];
  retentions = [];
  last_prune = [];
  scan_tails = [];
  line_buffers = [];
  chat_line_buffers = [];
  roster = record { players = []; sessions = [] };
  chat_samples = [];
  moderation_cooldown = [];
  next_id = 20;
}

abbrev input : ModerationInput
input = record {
  enabled = some true;
  bad_word_rules = none;
  bad_words = some words;
  bad_word_action = none;
  flood_enabled = none;
  flood_messages = some 100;
  flood_window_seconds = none;
  flood_action = none;
  muted_players = none;
}

abbrev saved : Result LogError (ChatModeration × LogBook)
saved = update_chat_moderation no_iso 1 2 input book

abbrev after_save : ChatModeration × LogBook
after_save = ok_or saved (get_chat_moderation no_iso 1 2 book, book)

saved_ok : update_chat_moderation no_iso 1 2 input book ≡ ok after_save
unfolding update_chat_moderation find_first
saved_ok = refl

update_chat_moderation-get_chat_moderation_example :
    get_chat_moderation no_iso 1 2 after_save.1 ≡ after_save.0
update_chat_moderation-get_chat_moderation_example =
    update_chat_moderation-get_chat_moderation no_iso 1 2 input book after_save.1 after_save.0
      (tt, tt) saved_ok

abbrev directory : Directory
directory = record {
  accounts = record {
    users = [];
    user_orgs =
        record { user_id = 1; org_id = 4; role_id = 7 }
        ∷ record { user_id = 2; org_id = 4; role_id = 7 }
        ∷ [];
    roles = record { id = 7; name = lit "admin" } ∷ [];
    orgs = [];
    next_id = 9;
  };
  settings = [];
  server_roles = [];
  audits = [];
}

abbrev after_delete : Bool × Directory
after_delete = ok_or (delete_account 4 1 2 directory) (false, directory)

delete_ok : delete_account 4 1 2 directory ≡ ok after_delete
unfolding delete_account find_first text_eq role_of lit admin_count count_where
delete_ok = refl

abbrev tokens : Text → Option ℕ
tokens t = if text_eq t (lit "abc") then some 1 else none

delete_account-authorize_example :
    authorize tokens none (some (lit "Bearer abc")) 4 after_delete.1.accounts ≡ err not_a_member
unfolding jwt_auth bearer_token lit text_eq
delete_account-authorize_example =
    delete_account-authorize tokens none (some (lit "Bearer abc")) 4 4 1 2 directory after_delete.1
      after_delete.0 delete_ok
