-- ===== src/Cycles/Colours.antt =====
-- Which tests on a colour exclude or imply each other.
use lumiere.Common.{◌≡◌, refl, true, false}
use lumiere.Cycles.{RefColour, black, grey, white, purple, is_black, is_grey, is_white, is_drained}

pub drained_not_black : (c : RefColour) → is_drained c ≡ true → is_black c ≡ false
drained_not_black black h = absurd (cc)
drained_not_black grey h = refl
drained_not_black white h = refl
drained_not_black purple h = refl

pub black_not_white : (c : RefColour) → is_black c ≡ true → is_white c ≡ false
black_not_white black h = refl
black_not_white grey h = refl
black_not_white white h = absurd (cc)
black_not_white purple h = refl

pub grey_drained : (c : RefColour) → is_grey c ≡ true → is_drained c ≡ true
grey_drained black h = absurd (cc)
grey_drained grey h = refl
grey_drained white h = absurd (cc)
grey_drained purple h = absurd (cc)

pub grey_not_black : (c : RefColour) → is_grey c ≡ true → is_black c ≡ false
grey_not_black black h = absurd (cc)
grey_not_black grey h = refl
grey_not_black white h = refl
grey_not_black purple h = absurd (cc)

pub drained_white : (c : RefColour) → is_drained c ≡ true → is_grey c ≡ false → is_white c ≡ true
drained_white black h g = absurd (cc)
drained_white grey h g = absurd (cc)
drained_white white h g = refl
drained_white purple h g = absurd (cc)

pub black_not_grey : (c : RefColour) → is_black c ≡ true → is_grey c ≡ false
black_not_grey black h = refl
black_not_grey grey h = absurd (cc)
black_not_grey white h = refl
black_not_grey purple h = refl

pub grey_calm : (c : RefColour) → is_drained c ≡ false → is_grey c ≡ false
grey_calm black h = refl
grey_calm grey h = absurd (cc)
grey_calm white h = refl
grey_calm purple h = refl

pub drained_is_white : (c : RefColour) → is_grey c ≡ false → is_drained c ≡ is_white c
drained_is_white black h = refl
drained_is_white grey h = absurd (cc)
drained_is_white white h = refl
drained_is_white purple h = refl

pub grey_is_drained : (c : RefColour) → is_grey c ≡ true → is_drained c ≡ true
grey_is_drained black h = absurd (cc)
grey_is_drained grey h = refl
grey_is_drained white h = absurd (cc)
grey_is_drained purple h = absurd (cc)

pub white_is_drained : (c : RefColour) → is_white c ≡ true → is_drained c ≡ true
white_is_drained black h = absurd (cc)
white_is_drained grey h = absurd (cc)
white_is_drained white h = refl
white_is_drained purple h = absurd (cc)

pub grey_not_white : (c : RefColour) → is_grey c ≡ true → is_white c ≡ false
grey_not_white black h = refl
grey_not_white grey h = refl
grey_not_white white h = absurd (cc)
grey_not_white purple h = refl

pub settled_calm : (c : RefColour) → is_grey c ≡ false → is_white c ≡ false → is_drained c ≡ false
settled_calm black g w = refl
settled_calm grey g w = absurd (cc)
settled_calm white g w = absurd (cc)
settled_calm purple g w = refl
