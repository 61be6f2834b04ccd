-- ===== src/Accounts/Confirm.antt =====
-- What is asked before an account changes: frontend/src/pages/admin/confirmations.ts, with the names
-- of the roles from frontend/src/format.ts and frontend/src/pages/admin/accounts.ts.
use rmm_rxf_sys_de.Base.{
  ◌≡◌, Bool, true, false, not, ◌&&◌, ◌||◌, String, Option, none, some, [], ◌∷◌, is_some, str_eq,
  arith, if◌then◌else◌,
}
use rmm_rxf_sys_de.Base.Text.{parts}
use rmm_rxf_sys_de.Fleet.People.{Account, Role, admin, techniker, viewer}
use rmm_rxf_sys_de.Accounts.Forms.{is_viewer, sees_nothing}

pub record AskText : Type 0 where
  pub title : String
  pub body : String
  pub confirm_label : String
  pub danger : Bool
  pub require_text : Option String

-- `roleLabel(role)`
abbrev role_label : Role → String
role_label admin = "Administrator"
role_label techniker = "Techniker"
role_label viewer = "Betrachter"

abbrev role_hint : Role → String
role_hint viewer = "Sieht nur die Geräte der verknüpften Person und ändert nichts."
role_hint techniker =
    "Betreut Geräte: Aufträge, Skripte und Updates — keine Konten und Einstellungen."
role_hint admin = "Darf alles, auch Konten, Einstellungen und das Audit-Log."

abbrev pub is_admin : Role → Bool
is_admin admin = true
is_admin techniker = false
is_admin viewer = false

abbrev pub same_role : Role → Role → Bool
same_role r s = str_eq (role_label r) (role_label s)

abbrev quoted : String → String
quoted name = parts ("„" ∷ name ∷ "“" ∷ [])

abbrev blind_text : Account → String
blind_text a = parts (
    quoted a.username
    ∷ " ist mit keiner Person verknüpft und sieht danach keine Geräte, bis über „Person zuordnen …“ im Menü der Zeile eine gewählt ist."
    ∷ [])

-- The account as it would be with the new role.
abbrev pub with_role : Account → Role → Account
with_role a role = record a { role = role }

-- ` ${blind}` where there is such a text
abbrev after_space : Bool → String → String
after_space false t = ""
after_space true t = parts (" " ∷ t ∷ [])

unfoldable pub role_change_text : Account → Role → Option AskText
role_change_text a role =
    let blind = sees_nothing (with_role a role) in
    if same_role role a.role
    then none
    else (if is_admin role
        then some (record {
          title = parts (quoted a.username ∷ " zum Administrator machen?" ∷ []);
          body = parts (
              quoted a.username
              ∷ " darf danach alles — auch Konten anlegen und löschen, Einstellungen ändern und das Audit-Log lesen."
              ∷ []);
          confirm_label = "Zum Administrator machen";
          danger = false;
          require_text = none;
        })
        else (if is_admin a.role
            then some (record {
              title = parts (quoted a.username ∷ " herabstufen?" ∷ []);
              body = parts (
                  quoted a.username
                  ∷ " wird "
                  ∷ role_label role
                  ∷ " und verliert den Zugriff auf Konten, Einstellungen und das Audit-Log. "
                  ∷ role_hint role
                  ∷ after_space blind (blind_text a)
                  ∷ []);
              confirm_label = parts ("Zum " ∷ role_label role ∷ " machen" ∷ []);
              danger = true;
              require_text = none;
            })
            else (if blind
                then some (record {
                  title = parts (quoted a.username ∷ " zum " ∷ role_label role ∷ " machen?" ∷ []);
                  body = parts (
                      "Ein "
                      ∷ role_label role
                      ∷ " sieht nur die Geräte seiner Person. "
                      ∷ blind_text a
                      ∷ []);
                  confirm_label = parts ("Zum " ∷ role_label role ∷ " machen" ∷ []);
                  danger = false;
                  require_text = none;
                })
                else none)))

unfoldable pub reset_totp_text : Account → Bool → AskText
reset_totp_text a self = record {
  title = parts ("Zwei-Faktor von " ∷ quoted a.username ∷ " zurücksetzen?" ∷ []);
  body =
      if self
      then "Schlüssel und Backup-Codes deines eigenen Kontos werden entfernt, ohne dass ein Code nötig ist. Bis zur neuen Einrichtung genügt für dich das Passwort."
      else parts (
          "Schlüssel und Backup-Codes von "
          ∷ quoted a.username
          ∷ " werden entfernt. Bis zur neuen Einrichtung genügt für dieses Konto das Passwort — gedacht für ein verlorenes Telefon."
          ∷ []);
  confirm_label = "Zwei-Faktor zurücksetzen";
  danger = true;
  require_text = none;
}

unfoldable pub disable_text : Account → AskText
disable_text a = record {
  title = parts (quoted a.username ∷ " deaktivieren?" ∷ []);
  body = parts (
      quoted a.username
      ∷ " kann sich danach nicht mehr anmelden, offene Sitzungen enden sofort. Das Konto bleibt mit Rolle und Verknüpfungen erhalten und lässt sich jederzeit wieder aktivieren."
      ∷ []);
  confirm_label = "Deaktivieren";
  danger = true;
  require_text = none;
}

unfoldable pub delete_text : Account → AskText
delete_text a = record {
  title = parts (quoted a.username ∷ " löschen?" ∷ []);
  body = parts (
      "Das Konto "
      ∷ quoted a.username
      ∷ " wird gelöscht, alle seine Sitzungen enden. Geräte, Personen und Audit-Einträge bleiben erhalten. Wer das Konto nur sperren will, deaktiviert es besser."
      ∷ []);
  confirm_label = "Konto löschen";
  danger = true;
  require_text = some a.username;
}

abbrev pub asks : Option AskText → Bool
asks question = is_some question

-- A change of role applies without a question exactly if it keeps the role, or neither grants nor
-- takes admin rights and leaves the account something to see: it becomes no viewer without a person.
pub role_change_asks :
    (a : Account) (role : Role)
    → asks (role_change_text a role) ≡ (
        not (same_role role a.role)
        && (is_admin role || (is_admin a.role || (is_viewer role && not (is_some a.person_id)))))
unfolding role_change_text sees_nothing
role_change_asks a role = ground arith
