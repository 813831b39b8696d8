-- ===== src/Session/Settings.antt =====
-- The keys and values of the settings that the peers exchange, and the texts of the refusals.
use anytls_x.Base.{ℕ, List, [], ◌∷◌}

abbrev pub key_rs : List ℕ
key_rs = 114 ∷ 115 ∷ []

abbrev pub key_v : List ℕ
key_v = 118 ∷ []

abbrev pub key_mig : List ℕ
key_mig = 109 ∷ 105 ∷ 103 ∷ []

abbrev pub key_padding_md5 : List ℕ
key_padding_md5 = 112 ∷ 97 ∷ 100 ∷ 100 ∷ 105 ∷ 110 ∷ 103 ∷ 45 ∷ 109 ∷ 100 ∷ 53 ∷ []

abbrev pub value_1 : List ℕ
value_1 = 49 ∷ []

abbrev pub value_2 : List ℕ
value_2 = 50 ∷ []

-- "client did not send its settings"
abbrev pub no_settings_text : List ℕ
no_settings_text =
    99 ∷ 108 ∷ 105 ∷ 101 ∷ 110 ∷ 116 ∷ 32 ∷ 100 ∷ 105 ∷ 100 ∷ 32 ∷ 110 ∷ 111 ∷ 116 ∷ 32 ∷ 115 ∷ 101
    ∷ 110 ∷ 100 ∷ 32 ∷ 105 ∷ 116 ∷ 115 ∷ 32 ∷ 115 ∷ 101 ∷ 116 ∷ 116 ∷ 105 ∷ 110 ∷ 103 ∷ 115 ∷ []

-- "client does not support record shaper, please upgrade"
abbrev pub no_shaper_text : List ℕ
no_shaper_text =
    99 ∷ 108 ∷ 105 ∷ 101 ∷ 110 ∷ 116 ∷ 32 ∷ 100 ∷ 111 ∷ 101 ∷ 115 ∷ 32 ∷ 110 ∷ 111 ∷ 116 ∷ 32 ∷ 115
    ∷ 117 ∷ 112 ∷ 112 ∷ 111 ∷ 114 ∷ 116 ∷ 32 ∷ 114 ∷ 101 ∷ 99 ∷ 111 ∷ 114 ∷ 100 ∷ 32 ∷ 115 ∷ 104
    ∷ 97 ∷ 112 ∷ 101 ∷ 114 ∷ 44 ∷ 32 ∷ 112 ∷ 108 ∷ 101 ∷ 97 ∷ 115 ∷ 101 ∷ 32 ∷ 117 ∷ 112 ∷ 103 ∷ 114
    ∷ 97 ∷ 100 ∷ 101 ∷ []
