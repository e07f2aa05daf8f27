-- ===== src/Api/Replies.antt =====
-- Taking an answered request of src/incidentpilot/api/app.py apart.
use incidentpilot.Base.{◌≡◌, refl, ap}
use incidentpilot.Access.{Answer, granted, refused}
use incidentpilot.Api.{Reply, answered, http_error, raised, when_granted}

pub when_granted-answered :
    {A : Type 0} (a : Answer) (r : Reply A) (x : A)
    → when_granted a r ≡ answered x
    → (a ≡ granted) × (r ≡ answered x)
when_granted-answered granted r x h = (refl, h)
when_granted-answered (refused n) r x h = cc

the_answer : {A : Type 0} → A → Reply A → A
the_answer a (answered x) = x
the_answer a (http_error n) = a
the_answer a (raised e) = a

pub answered-injective : {A : Type 0} {x y : A} → answered x ≡ answered y → x ≡ y
unfolding the_answer
answered-injective {x = x} h = ap (the_answer x) h
