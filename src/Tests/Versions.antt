-- ===== src/Tests/Versions.antt =====
-- Examples of the comparison of versions.
use dlite.Base.{◌≡◌, refl, none, some, codes, arith, done, fault, ℤ, suc, length, ◌+◌}
use dlite.Strutils.Version.{byte_of, natoi, prerelease_loop, strncmp_semver, strcmp_semver}
use dlite.Strutils.VersionOrder.{Ends}
use dlite.Strutils.VersionLoop.{strcmp_semver_terminates, prerelease_loop-dots}

ten_after_nine : strcmp_semver 20 (codes "1.2.10") (codes "1.2.9") ≡ some (done (ℤ.pos 1))
unfolding strcmp_semver
ten_after_nine = refl

-- A pre-release is taken for later than its release.
behind_the_release : strcmp_semver 20 (codes "1.0.0-rc.1") (codes "1.0.0") ≡ some (done (ℤ.pos 1))
unfolding strcmp_semver
behind_the_release = refl

numbers_first : strcmp_semver 20 (codes "1.0.0-a.9") (codes "1.0.0-a.10") ≡ some (done (ℤ.negsuc 0))
unfolding strcmp_semver
numbers_first = refl

-- A version with more identifiers is later, but the two are taken for equal.
taken_for_equal :
    strcmp_semver 30 (codes "1.0.0-alpha") (codes "1.0.0-alpha.1") ≡ some (done (ℤ.pos 0))
unfolding strcmp_semver
taken_for_equal = refl

read_negative : natoi (codes "  -12x") 5 ≡ done (ℤ.negsuc 11)
unfolding natoi
read_negative = refl

too_many_digits : natoi (codes "2147483648") 10 ≡ fault
unfolding natoi
too_many_digits = refl

-- The minor number of the first would stand behind its NUL.
no_minor : strcmp_semver 20 (codes "1") (codes "1.0.0") ≡ some fault
unfolding strcmp_semver
no_minor = refl

-- The limit of seven bytes lies before a dot in both.
never_ends : strncmp_semver 50 (codes "1.0.0-a.b") (codes "1.0.0-a.c") 7 ≡ none
unfolding strncmp_semver
never_ends = refl

strcmp_semver_terminates_example : Ends (
    strcmp_semver
      (suc (length (codes "1.0.0-a.b") + length (codes "1.0.0-a")))
      (codes "1.0.0-a.b")
      (codes "1.0.0-a"))
strcmp_semver_terminates_example =
    strcmp_semver_terminates (codes "1.0.0-a.b") (codes "1.0.0-a") (omega arith) (omega arith)

prerelease_loop-dots_example :
    prerelease_loop 1000 (codes "1.0.0-a.b") (codes "1.0.0-a.c") 7 7 ≡ none
unfolding byte_of
prerelease_loop-dots_example =
    prerelease_loop-dots 1000 (codes "1.0.0-a.b") (codes "1.0.0-a.c") 7 refl refl
