-- ===== src/Unifi/Band/Mix.antt =====
-- The bucket of a client in the connection mix, by the number of its channel.
use unifi_netwatcher.Base.{
  leb, if◌then◌else◌, get_or, Text, lower, text_eq, ℕ, ◌<◌, ◌≡◌, refl, Bool, true, false, ◌&&◌,
  Option, some, [], arith, t,
}
use unifi_netwatcher.Base.Ints.{pos}
use unifi_netwatcher.Unifi.Band.{
  is_six_ghz_proto, channel_label, band_label, proto_label, connection_mix_key, mix_key_of_label,
  MixKey, wired, band_24, band_5, band_6,
}

-- The band that a positive channel number stands for: 1 to 14, 36 to 177, and the others.
unfoldable pub band_of_channel : ℕ → MixKey
band_of_channel ch =
    if leb ch 14 then band_24 else if leb 36 ch && leb ch 177 then band_5 else band_6

channel_label_24 :
    (ch : ℕ) → 0 < ch → leb ch 14 ≡ true → channel_label (pos ch) ≡ some (t "2.4 GHz")
unfolding channel_label
channel_label_24 ch h low = ground arith

channel_label_5 :
    (ch : ℕ) → (leb 36 ch && leb ch 177) ≡ true → channel_label (pos ch) ≡ some (t "5 GHz")
unfolding channel_label
channel_label_5 ch mid = ground arith

channel_label_6 :
    (ch : ℕ)
    → leb ch 14 ≡ false
    → (leb 36 ch && leb ch 177) ≡ false
    → channel_label (pos ch) ≡ some (t "6 GHz")
unfolding channel_label
channel_label_6 ch low mid = ground arith

label_bucket :
    (other_label : Text) (ch : ℕ)
    → 0 < ch
    → (low mid : Bool) → leb ch 14 ≡ low
    → (leb 36 ch && leb ch 177) ≡ mid
    → mix_key_of_label (get_or (channel_label (pos ch)) other_label)
      ≡ (if low then band_24 else if mid then band_5 else band_6)
unfolding mix_key_of_label text_eq
label_bucket other_label ch h true mid low_is mid_is = rw (channel_label_24 ch h low_is) refl
label_bucket other_label ch h false true low_is mid_is = rw (channel_label_5 ch mid_is) refl
label_bucket other_label ch h false false low_is mid_is = rw (channel_label_6 ch low_is mid_is) refl

mix_key_lem :
    (is_wired is_six : Bool) (ch : ℕ) (other_label : Text)
    → 0 < ch
    → mix_key_of_label (
        if is_wired
        then t "Wired"
        else if is_six
        then t "6 GHz"
        else get_or (channel_label (pos ch)) other_label)
      ≡ (if is_wired then wired else if is_six then band_6 else band_of_channel ch)
unfolding mix_key_of_label text_eq band_of_channel
mix_key_lem true is_six ch other_label h = refl
mix_key_lem false true ch other_label h = refl
mix_key_lem false false ch other_label h =
    label_bucket other_label ch h (leb ch 14) (leb 36 ch && leb ch 177) refl refl

-- The bucket of a client in the connection mix, for a positive channel number: a wired client is
-- counted as wired, one whose protocol is a 6 GHz one (`is_six_ghz_proto`, in any letter case)
-- in the 6 GHz band whatever its channel, and any other by its channel alone: 1 to 14 is 2.4
-- GHz, 36 to 177 is 5 GHz, and every other number is 6 GHz.
pub connection_mix_key_lem :
    (is_wired : Option Bool) (radio_proto : Option Text) (ch : ℕ)
    → 0 < ch
    → connection_mix_key is_wired radio_proto (some (pos ch)) ≡ (
        if get_or is_wired false
        then wired
        else if is_six_ghz_proto (lower (get_or radio_proto []))
        then band_6
        else band_of_channel ch)
unfolding connection_mix_key band_label
connection_mix_key_lem is_wired radio_proto ch h =
    mix_key_lem (get_or is_wired false) (is_six_ghz_proto (lower (get_or radio_proto []))) ch
      (proto_label (get_or radio_proto []) (lower (get_or radio_proto []))) h
