-- ===== src/Points/Tests/TagMap.antt =====
-- Runs of the map of tags on concrete keys, and the theorem at one.
use vgo.Prelude.{Bytes, codes, ◌≡◌, refl, arith, false, [], ◌∷◌, equal, before}
use vgo.Prelude.Dict.{Dict, lookup, insert}
use vgo.Prelude.Outcome.{returned, panicked}
use vgo.Points.Escape.{escape_tag, unescape_tag, escape_measurement, unescape_measurement}
use vgo.Points.Key.{scan_to}
use vgo.Points.TagMap.{make_key, parse_tags}
use vgo.Points.TagMap.RoundTrip.{parse_tags-make_key}

abbrev two_tags : Dict Bytes
two_tags = (codes "z", codes "a b") ∷ (codes "h,o", codes "1") ∷ []

make_key_run : make_key (codes "c pu") two_tags ≡ codes "c\\ pu,h\\,o=1,z=a\\ b"
unfolding make_key escape_measurement unescape_measurement escape_tag insert equal before lookup
make_key_run = refl

parse_tags-make_key_example :
    (read : Dict Bytes) × (parse_tags false (make_key (codes "c pu") two_tags) ≡ returned read)
    × ((j : Bytes) → lookup j read ≡ lookup j two_tags)
unfolding lookup equal
parse_tags-make_key_example =
    parse_tags-make_key false (codes "c pu") two_tags (refl, (refl, (refl, (refl, tt))))
      (omega arith) (refl, (refl, tt))
      (
        record {
          key_plain = (refl, tt);
          value_plain = (refl, (refl, (refl, tt)));
          has_value = omega arith;
        },
        (
          record {
            key_plain = (refl, (refl, (refl, tt)));
            value_plain = (refl, tt);
            has_value = omega arith;
          },
          tt,
        ),
      )

-- A value that ends in a backslash swallows the next tag.
swallows : parse_tags false (codes "c,a=x\\,b=y") ≡ returned ((codes "a", codes "x,b=y") ∷ [])
unfolding parse_tags scan_to insert unescape_tag
swallows = refl

-- Without an equals sign the text is sliced one past its end.
no_value : parse_tags false (codes "c,a") ≡ panicked
unfolding parse_tags scan_to
no_value = refl
