-- ===== src/Runtime/Whitelist.antt =====
-- The storage that a benchmark does not count: `dispatch_benchmark` of runtime/src/lib.rs.
use event_listener.Prelude.{ℕ, List, [], ◌∷◌}

abbrev pub block_number_key : List ℕ
block_number_key =
    38 ∷ 170 ∷ 57 ∷ 78 ∷ 234 ∷ 86 ∷ 48 ∷ 224 ∷ 124 ∷ 72 ∷ 174 ∷ 12 ∷ 149 ∷ 88 ∷ 206 ∷ 247 ∷ 2 ∷ 165
    ∷ 193 ∷ 177 ∷ 154 ∷ 183 ∷ 160 ∷ 79 ∷ 83 ∷ 108 ∷ 81 ∷ 154 ∷ 202 ∷ 73 ∷ 131 ∷ 172 ∷ []

abbrev pub total_issuance_key : List ℕ
total_issuance_key =
    194 ∷ 38 ∷ 18 ∷ 118 ∷ 204 ∷ 157 ∷ 31 ∷ 133 ∷ 152 ∷ 234 ∷ 75 ∷ 106 ∷ 116 ∷ 177 ∷ 92 ∷ 47 ∷ 87
    ∷ 200 ∷ 117 ∷ 228 ∷ 207 ∷ 247 ∷ 65 ∷ 72 ∷ 228 ∷ 98 ∷ 143 ∷ 38 ∷ 75 ∷ 151 ∷ 76 ∷ 128 ∷ []

abbrev pub execution_phase_key : List ℕ
execution_phase_key =
    38 ∷ 170 ∷ 57 ∷ 78 ∷ 234 ∷ 86 ∷ 48 ∷ 224 ∷ 124 ∷ 72 ∷ 174 ∷ 12 ∷ 149 ∷ 88 ∷ 206 ∷ 247 ∷ 255 ∷ 85
    ∷ 59 ∷ 90 ∷ 152 ∷ 98 ∷ 165 ∷ 22 ∷ 147 ∷ 157 ∷ 130 ∷ 179 ∷ 211 ∷ 216 ∷ 102 ∷ 26 ∷ []

abbrev pub event_count_key : List ℕ
event_count_key =
    38 ∷ 170 ∷ 57 ∷ 78 ∷ 234 ∷ 86 ∷ 48 ∷ 224 ∷ 124 ∷ 72 ∷ 174 ∷ 12 ∷ 149 ∷ 88 ∷ 206 ∷ 247 ∷ 10 ∷ 152
    ∷ 253 ∷ 190 ∷ 156 ∷ 230 ∷ 197 ∷ 88 ∷ 55 ∷ 87 ∷ 108 ∷ 96 ∷ 199 ∷ 175 ∷ 56 ∷ 80 ∷ []

abbrev pub system_events_key : List ℕ
system_events_key =
    38 ∷ 170 ∷ 57 ∷ 78 ∷ 234 ∷ 86 ∷ 48 ∷ 224 ∷ 124 ∷ 72 ∷ 174 ∷ 12 ∷ 149 ∷ 88 ∷ 206 ∷ 247 ∷ 128
    ∷ 212 ∷ 30 ∷ 94 ∷ 22 ∷ 5 ∷ 103 ∷ 101 ∷ 188 ∷ 132 ∷ 97 ∷ 133 ∷ 16 ∷ 114 ∷ 201 ∷ 215 ∷ []

-- The keys of the storage that a benchmark does not count.
abbrev pub whitelist : List (List ℕ)
whitelist =
    block_number_key
    ∷ (total_issuance_key ∷ (execution_phase_key ∷ (event_count_key ∷ (system_events_key ∷ []))))
