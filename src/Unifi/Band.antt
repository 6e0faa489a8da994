-- ===== src/Unifi/Band.antt =====
-- app/unifi/band.py: the band label of a client, and its bucket in the connection mix.
pub mod Mix
use unifi_netwatcher.Base.{
  if◌then◌else◌, get_or, is_empty, Text, t, text_eq, text_in, lower, contains, Bool, false, ◌&&◌,
  ◌||◌, Option, none, some, [], ◌∷◌,
}
use unifi_netwatcher.Base.Ints.{ℤ, pos, leb_ℤ, ltb_ℤ}

unfoldable pub is_six_ghz_proto : Text → Bool
is_six_ghz_proto proto =
    contains proto (t "6e") || contains proto (t "6g") || text_in proto (t "be" ∷ t "ax6" ∷ [])

-- The tests on the channel number, in order; `none` falls through to the protocol.
unfoldable pub channel_label : ℤ → Option Text
channel_label ch =
    if leb_ℤ (pos 1) ch && leb_ℤ ch (pos 14)
    then some (t "2.4 GHz")
    else if leb_ℤ (pos 36) ch && leb_ℤ ch (pos 177)
    then some (t "5 GHz")
    else if ltb_ℤ (pos 177) ch
    then some (t "6 GHz")
    else if leb_ℤ (pos 15) ch && leb_ℤ ch (pos 35)
    then some (t "6 GHz")
    else none

-- `proto` is `radio_proto` in lower case.
unfoldable pub proto_label : Text → Text → Text
proto_label radio_proto proto =
    if is_empty proto
    then t "Wi-Fi"
    else if text_in proto (t "ac" ∷ t "ax" ∷ t "a" ∷ t "n" ∷ t "na" ∷ [])
    then t "5 GHz"
    else if text_in proto (t "ng" ∷ t "b" ∷ t "g" ∷ t "n2" ∷ [])
    then t "2.4 GHz"
    else radio_proto

abbrev channel_or_proto : Option ℤ → Text → Text → Text
channel_or_proto none radio_proto proto = proto_label radio_proto proto
channel_or_proto (some ch) radio_proto proto =
    get_or (channel_label ch) (proto_label radio_proto proto)

unfoldable pub band_label : Option Bool → Option Text → Option ℤ → Text
band_label is_wired radio_proto channel =
    let shown = get_or radio_proto [] in
    let proto = lower shown in
    if get_or is_wired false
    then t "Wired"
    else if is_six_ghz_proto proto
    then t "6 GHz"
    else channel_or_proto channel shown proto

pub data MixKey : Type 0 where
  wired band_24 band_5 band_6 other : MixKey

unfoldable pub mix_key_of_label : Text → MixKey
mix_key_of_label label =
    if text_eq label (t "Wired")
    then wired
    else if text_eq label (t "2.4 GHz")
    then band_24
    else if text_eq label (t "5 GHz")
    then band_5
    else if text_eq label (t "6 GHz")
    then band_6
    else other

unfoldable pub connection_mix_key : Option Bool → Option Text → Option ℤ → MixKey
connection_mix_key is_wired radio_proto channel =
    mix_key_of_label (band_label is_wired radio_proto channel)
