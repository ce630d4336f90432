-- ===== src/Cli/Codes.antt =====
-- main.go: the channel codes. The random bytes are arguments: the twelve that are read at once, and
-- those that single reads give after it.
use Prim.Native.String.{String}
use mathlib.Core.Path.{subst}
use zero_feed.Base.{
  ℕ, zero, suc, ◌+◌, ◌-◌, ◌*◌, ◌/◌, ◌%◌, ◌^◌, ◌≤◌, ◌<◌, ◌≡◌, refl, ◌↔◌, Option, none, some, List,
  [], ◌∷◌, ◌++◌, length, get_or, drop, take, ltb, if◌then◌else◌, codes, get_be, All, Bool-cases,
  Option-cases, inl, inr, sym, ap, ◌∙◌, length-take, arith,
}
use zero_feed.Feed.Invite.{Bytes}

abbrev pub words : List String
words =
    "quantum" ∷ "shield" ∷ "cipher" ∷ "falcon" ∷ "orbit" ∷ "phoenix" ∷ "pulse" ∷ "matrix" ∷ "vector"
    ∷ "horizon" ∷ "shadow" ∷ "starlight" ∷ "vortex" ∷ "cobalt" ∷ "emerald" ∷ "aurora" ∷ "hyper"
    ∷ "nebula" ∷ "zenith" ∷ "vertex" ∷ "nexus" ∷ "prism" ∷ "spectre" ∷ "titan" ∷ "argon" ∷ "beacon"
    ∷ "celestial" ∷ "dynasty" ∷ "eclipse" ∷ "frontier" ∷ "glacier" ∷ "helix" ∷ "impulse" ∷ "jupiter"
    ∷ "krypton" ∷ "lunar" ∷ "magnet" ∷ "neutron" ∷ "omega" ∷ "polaris" ∷ "quasar" ∷ "radiant"
    ∷ "solar" ∷ "tachyon" ∷ "uranium" ∷ "velocity" ∷ "wavelength" ∷ "xray" ∷ "yield" ∷ "zodiac"
    ∷ "anchor" ∷ "blaze" ∷ "cascade" ∷ "dragon" ∷ "echo" ∷ "frost" ∷ "granite" ∷ "haven" ∷ "iron"
    ∷ "jasper" ∷ "knight" ∷ "lotus" ∷ "mirage" ∷ "nova" ∷ "onyx" ∷ "phantom" ∷ "quartz" ∷ "raven"
    ∷ "sapphire" ∷ "thunder" ∷ "umbra" ∷ "valkyrie" ∷ "whisper" ∷ "xenon" ∷ "yeti" ∷ "zephyr"
    ∷ "abyss" ∷ "boulder" ∷ "comet" ∷ "dune" ∷ "element" ∷ "forge" ∷ "gargoyle" ∷ "harbor"
    ∷ "infinity" ∷ "jungle" ∷ "kinetic" ∷ "lightning" ∷ "monolith" ∷ "navigator" ∷ "obsidian"
    ∷ "pyramid" ∷ "quest" ∷ "rift" ∷ "spire" ∷ "tempest" ∷ "utopia" ∷ "vanguard" ∷ "wildfire"
    ∷ "zealot" ∷ "asteroid" ∷ "blizzard" ∷ "cosmos" ∷ "dynamo" ∷ "entropy" ∷ "fissure" ∷ "gravity"
    ∷ "hurricane" ∷ "impact" ∷ "journey" ∷ "keystone" ∷ "leviathan" ∷ "maelstrom" ∷ "nadir"
    ∷ "oasis" ∷ "pulsar" ∷ "quarry" ∷ "resonance" ∷ "solstice" ∷ "typhoon" ∷ "ultraviolet"
    ∷ "volcano" ∷ "viper" ∷ "whirlpool" ∷ "xiphos" ∷ "yggdrasil" ∷ "zircon" ∷ "apex" ∷ "bastion"
    ∷ "citadel" ∷ "domain" ∷ "empire" ∷ "fortress" ∷ "guardian" ∷ "hyperion" ∷ "isotope"
    ∷ "juggernaut" ∷ "kryptonite" ∷ "labyrinth" ∷ "meridian" ∷ "nemesis" ∷ "oracle" ∷ "pathfinder"
    ∷ "quicksilver" ∷ "renegade" ∷ "sentinel" ∷ "torpedo" ∷ "universe" ∷ "vulture" ∷ "warlord"
    ∷ "xenonite" ∷ "yottabyte" ∷ "zeus" ∷ "avalanche" ∷ "barrier" ∷ "chasm" ∷ "equinox" ∷ "firewall"
    ∷ "grid" ∷ "hyperdrive" ∷ "inferno" ∷ "jackhammer" ∷ "kilometer" ∷ "luminary" ∷ "meteor"
    ∷ "neutrino" ∷ "overload" ∷ "parsec" ∷ "qubit" ∷ "raytrace" ∷ "singularity" ∷ "thruster"
    ∷ "unifier" ∷ "veritas" ∷ "warp" ∷ "xanadu" ∷ "yearling" ∷ "zeropoint" ∷ "arc" ∷ "bolt" ∷ "core"
    ∷ "disk" ∷ "flux" ∷ "gate" ∷ "hub" ∷ "ion" ∷ "jet" ∷ "kilobyte" ∷ "link" ∷ "mesh" ∷ "node"
    ∷ "overdrive" ∷ "port" ∷ "quad" ∷ "ram" ∷ "sync" ∷ "turboflow" ∷ "unit" ∷ "volt" ∷ "watt"
    ∷ "xenith" ∷ "yaw" ∷ "zone" ∷ "alpha" ∷ "beta" ∷ "gamma" ∷ "delta" ∷ "epsilon" ∷ "zeta" ∷ "eta"
    ∷ "theta" ∷ "iota" ∷ "kappa" ∷ "lambda" ∷ "mu" ∷ "nu" ∷ "xi" ∷ "omicron" ∷ "pi" ∷ "rho"
    ∷ "sigma" ∷ "tau" ∷ "upsilon" ∷ "phi" ∷ "chi" ∷ "psi" ∷ "omegacore" ∷ "antimatter" ∷ "biome"
    ∷ "chronos" ∷ "darkmatter" ∷ "exoplanet" ∷ []

-- The bytes from this one on would favour some words.
abbrev pub max_val : ℕ
max_val = 256 - 256 % length words

-- `%d` of a number, in as many steps as it has digits.
unfoldable pub decimal_steps : ℕ → ℕ → Bytes
decimal_steps zero n = []
decimal_steps (suc fuel) n =
    let more = decimal_steps fuel (n / 10) ++ (b'0' + n % 10) ∷ [] in
    if ltb n 10 then (b'0' + n) ∷ [] else more

-- Single bytes are read until one is small enough; `none` if the bytes end before.
unfoldable pub read_again : List ℕ → Option (ℕ × List ℕ)
read_again [] = none
read_again (t ∷ stream) =
    let rest = read_again stream in if ltb t max_val then some (t % length words, stream) else rest

-- The index of the word, and the bytes that are left.
unfoldable pub get_unbiased_word : ℕ → List ℕ → Option (ℕ × List ℕ)
unfolding read_again
get_unbiased_word raw stream =
    if ltb raw max_val then some (raw % length words, stream) else read_again stream

-- The indices of as many words as there are bytes.
abbrev pub chosen : ℕ → Option (List ℕ) → Option (List ℕ)
chosen w none = none
chosen w (some ws) = some (w ∷ ws)

abbrev pub with_word : Option (ℕ × List ℕ) → (List ℕ → Option (List ℕ)) → Option (List ℕ)
with_word none others = none
with_word (some (w, rest)) others = chosen w (others rest)

unfoldable pub get_words : List ℕ → List ℕ → Option (List ℕ)
get_words [] stream = some []
get_words (raw ∷ b) stream = with_word (get_unbiased_word raw stream) (get_words b)

unfoldable pub code_number : Bytes → ℕ
code_number b = get_be (take 4 (drop 5 b)) % 900000 + 100000

-- The number has six digits.
unfoldable pub format_code : List ℕ → ℕ → Bytes
unfolding decimal_steps
format_code [] num = decimal_steps 6 num
format_code (w ∷ ws) num = codes (get_or words w "") ++ (b'-' ∷ format_code ws num)

unfoldable pub generate_channel_code : Bytes → List ℕ → Option Bytes
unfolding get_words code_number format_code
generate_channel_code b stream = elim (get_words (take 5 b) stream) [
  | none ↦ none
  | some ws ↦ some (format_code ws (code_number b))
]

absurd_some {ℓ κ} : {A : Type ℓ} {B : Type κ} {a : A} → none ≡ some a → B
absurd_some e = cc

some_injective {ℓ} : {A : Type ℓ} {a b : A} → some a ≡ some b → a ≡ b
some_injective e = cc

read_again-lt :
    (stream : List ℕ) {w : ℕ} {rest : List ℕ} → read_again stream ≡ some (w, rest) → w < 232
unfolding read_again
read_again-lt [] e = cc
read_again-lt (t ∷ stream) {w} {rest} e = elim (Bool-cases (ltb t max_val)) [
  | inl k ↦ let e' : t % 232 ≡ w = ground arith in omega arith
  | inr k ↦ let e' : read_again stream ≡ some (w, rest) = ground arith in read_again-lt stream e'
]

get_unbiased_word-lt :
    (raw : ℕ) (stream : List ℕ) {w : ℕ} {rest : List ℕ}
    → get_unbiased_word raw stream ≡ some (w, rest)
    → w < 232
unfolding get_unbiased_word
get_unbiased_word-lt raw stream {w} {rest} e = elim (Bool-cases (ltb raw max_val)) [
  | inl k ↦ let e' : raw % 232 ≡ w = ground arith in omega arith
  | inr k ↦ let e' : read_again stream ≡ some (w, rest) = ground arith in read_again-lt stream e'
]

abbrev AreWords : ℕ → List ℕ → Type 0
AreWords n ws = (length ws ≡ n) × All (λ w. w < length words) ws

get_words-AreWords :
    (b stream : List ℕ) {ws : List ℕ} → get_words b stream ≡ some ws → AreWords (length b) ws
unfolding get_words
get_words-AreWords [] stream {ws} e = let e' : [] ≡ ws = cc in subst (AreWords 0) e' (refl, tt)
get_words-AreWords (raw ∷ b) stream {ws} e = elim (Option-cases (get_unbiased_word raw stream)) [
  | inl n ↦ absurd_some (sym (ap (λ r. with_word r (get_words b)) n) ∙ e)
  | inr ((w, rest), q) ↦
      let e' : chosen w (get_words b rest) ≡ some ws =
        sym (ap (λ r. with_word r (get_words b)) q) ∙ e in
      elim (Option-cases (get_words b rest)) [
        | inl n ↦ absurd_some (sym (ap (chosen w) n) ∙ e')
        | inr (vs, n) ↦
            let h = get_words-AreWords b rest n in
            subst (AreWords (suc (length b))) (some_injective (sym (ap (chosen w) n) ∙ e'))
              (ap suc h.0, (get_unbiased_word-lt raw stream q, h.1))
      ]
]

-- How many bytes of a list are taken.
unfoldable pub acceptable : List ℕ → ℕ
acceptable [] = 0
acceptable (t ∷ stream) = (if ltb t max_val then 1 else 0) + acceptable stream

-- A word is found, and at most one acceptable byte is used up for it.
abbrev Finds : ℕ → Option (ℕ × List ℕ) → Type 0
Finds n r = (w : ℕ) × (rest : List ℕ) × (r ≡ some (w, rest)) × (n ≤ acceptable rest + 1)

read_again-Finds :
    (stream : List ℕ) → 0 < acceptable stream → Finds (acceptable stream) (read_again stream)
unfolding read_again acceptable
read_again-Finds [] h = absurd (omega arith)
read_again-Finds (t ∷ stream) h = elim (Bool-cases (ltb t max_val)) [
  | inl k ↦ rw k (t % 232, stream, refl, omega arith)
  | inr k ↦
      let h' : 0 < acceptable stream = ground arith in
      let (w, rest, e, n) = read_again-Finds stream h' in
      let n' : (if ltb t max_val then 1 else 0) + acceptable stream ≤ acceptable rest + 1 =
        ground (arith, n) in
      (w, rest, rw k e, n')
]

get_unbiased_word-Finds :
    (raw : ℕ) (stream : List ℕ)
    → 0 < acceptable stream
    → Finds (acceptable stream) (get_unbiased_word raw stream)
unfolding get_unbiased_word
get_unbiased_word-Finds raw stream h = elim (Bool-cases (ltb raw max_val)) [
  | inl k ↦ rw k (raw % 232, stream, refl, omega arith)
  | inr k ↦ rw k (read_again-Finds stream h)
]

get_words-total :
    (b stream : List ℕ)
    → length b ≤ acceptable stream
    → (ws : List ℕ) × (get_words b stream ≡ some ws)
unfolding get_words
get_words-total [] stream h = ([], refl)
get_words-total (raw ∷ b) stream h =
    let (w, rest, e, n) = get_unbiased_word-Finds raw stream (omega arith) in
    let (ws, e') = get_words-total b rest (omega arith) in
    (w ∷ ws, ap (λ r. with_word r (get_words b)) e ∙ ap (chosen w) e')

-- If five of the bytes that are read singly are small enough, generateChannelCode ends with five
-- of its words and a number of six digits, whatever its first bytes: there are fewer than 2 ^ 60
-- such codes.
pub generate_channel_code-few :
    (b stream : List ℕ)
    → 9 ≤ length b
    → 5 ≤ acceptable stream
    → (ws : List ℕ) × (num : ℕ) × (generate_channel_code b stream ≡ some (format_code ws num))
      × (length ws ≡ 5)
      × All (λ w. w < length words) ws
      × (100000 ≤ num)
      × (num < 1000000)
      × (length words ^ 5 * 900000 < 2 ^ 60)
unfolding generate_channel_code code_number
generate_channel_code-few b stream l a =
    let five : length (take 5 b) ≡ 5 = omega (arith, length-take {0} 5 b) in
    let (ws, e) = get_words-total (take 5 b) stream (omega arith) in
    let h = get_words-AreWords (take 5 b) stream e in
    (
      ws,
      code_number b,
      rw (e, generate_channel_code) refl,
      h.0 ∙ five,
      h.1,
      omega arith,
      omega arith,
      omega arith,
    )

-- A byte is taken for one word only, and each word has one byte: no word is favoured.
pub get_unbiased_word-uniform :
    (raw w : ℕ)
    → raw < 256
    → w < length words
    → (get_unbiased_word raw [] ≡ some (w, [])) ↔ (raw ≡ w)
unfolding get_unbiased_word read_again
get_unbiased_word-uniform raw w h k = (λ e. ground arith, λ e. ground arith)
